-- ===== src/BusiLogger/Tests.antt =====
-- The business logger at concrete inputs.
use skynet_server.Common.{
  ℕ, ◌+◌, ◌*◌, ◌/◌, ◌%◌, ◌≡◌, refl, ap, true, false, none, some, List, [], ◌∷◌, arith, ==_iff,
}
use skynet_server.Common.Bytes.{Bytes, codes}
use skynet_server.Common.Int.{pos}
use skynet_server.BusiLogger.{
  file, BusiLogger, present, Answers, Call, Outcome, sameday, busi_open_file, reopen, needs_file,
  busi_update_name, busilogger_create,
}
use skynet_server.BusiLogger.Init.{init_words, busilogger_init}
use skynet_server.BusiLogger.Words.{IsParameter, parameter}
use skynet_server.BusiLogger.Rotate.{IsBeijingTime, IsSmooth}
use skynet_server.BusiLogger.Files.{Lost, busi_open_file-failure}
use skynet_server.BusiLogger.Leak.{Leaks, busilogger_release-Leaks}
use skynet_server.BusiLogger.Life.{WritesLines, busilogger_init-run}

abbrev same_time : ℕ → ℕ
same_time t = t

-- A date as the number of its day, in eight digits.
abbrev digits : ℕ → Bytes
digits day =
    (day / 10000000 % 10 + 48)
    ∷ (day / 1000000 % 10 + 48)
    ∷ (day / 100000 % 10 + 48)
    ∷ (day / 10000 % 10 + 48)
    ∷ (day / 1000 % 10 + 48)
    ∷ (day / 100 % 10 + 48)
    ∷ (day / 10 % 10 + 48)
    ∷ (day % 10 + 48)
    ∷ []

abbrev day_number : ℕ → Bytes
day_number t = digits ((t + 8 * 3600) / 86400)

day_number-IsBeijingTime : IsBeijingTime same_time day_number
unfolding sameday
day_number-IsBeijingTime = record {
  round = λ t. refl;
  one_date = λ t u e. ap digits ((==_iff _ _).0 e);
  eight_digits = λ t. refl;
}

abbrev junk : BusiLogger
junk = record { handle = none; close = true; log_create_time = 7; log_dir = []; log_prefix = [] }

-- Midnight is at 57600.
abbrev before_midnight : Answers
before_midnight = record { now = 57599; now_open = 57599; directory = present; opens = true }

abbrev after_midnight : Answers
after_midnight = record { now = 57600; now_open = 57601; directory = present; opens = true }

abbrev two_messages : List (Answers × Bytes)
two_messages = (before_midnight, codes "a") ∷ (after_midnight, codes "b") ∷ []

abbrev started : Outcome
started = record {
  result = pos 0;
  inst = record {
    handle = some (file (codes "d/p.log.00000000"));
    close = false;
    log_create_time = 57599;
    log_dir = codes "d";
    log_prefix = codes "p";
  };
  calls =
      Call.fopen (codes "d/p.log.00000000") true ∷ Call.callback ∷ Call.register (codes "n") ∷ [];
}

starts :
    busilogger_init same_time day_number
      (busilogger_create junk)
      (some (parameter (codes "n") (codes "d") (codes "p")))
      before_midnight
    ≡ some started
unfolding busilogger_init init_words busi_update_name busi_open_file reopen needs_file sameday
starts = refl

before_midnight-IsSmooth : IsSmooth before_midnight
unfolding sameday
before_midnight-IsSmooth = record { opens = refl; same = refl }

after_midnight-IsSmooth : IsSmooth after_midnight
unfolding sameday
after_midnight-IsSmooth = record { opens = refl; same = refl }

n_d_p-IsParameter : IsParameter (codes "n") (codes "d") (codes "p")
n_d_p-IsParameter = record {
  plain_name = refl;
  plain_dir = refl;
  plain_prefix = refl;
  fits_name = omega arith;
  fits_dir = omega arith;
  fits_prefix = omega arith;
}

busilogger_init-run_example :
    WritesLines same_time day_number junk
      (codes "n")
      (codes "d")
      (codes "p")
      before_midnight
      two_messages
busilogger_init-run_example =
    busilogger_init-run same_time day_number day_number-IsBeijingTime junk (codes "n") (codes "d")
      (codes "p") before_midnight two_messages n_d_p-IsParameter (omega arith)
      before_midnight-IsSmooth (before_midnight-IsSmooth, (after_midnight-IsSmooth, tt))

needed :
    needs_file started.inst.handle
      (same_time (record after_midnight { opens = false }).now)
      started.inst.log_create_time
    ≡ true
unfolding needs_file sameday
needed = refl

busi_open_file-failure_example :
    Lost same_time day_number started.inst
      (record after_midnight { opens = false })
      ((record after_midnight { opens = false }, codes "b") ∷ two_messages)
busi_open_file-failure_example =
    busi_open_file-failure same_time day_number started.inst
      (record after_midnight { opens = false }) (codes "b") two_messages needed refl

busilogger_release-Leaks_example : Leaks same_time day_number started two_messages
busilogger_release-Leaks_example =
    busilogger_release-Leaks same_time day_number junk
      (some (parameter (codes "n") (codes "d") (codes "p"))) before_midnight started two_messages
      starts refl
