-- ===== src/BusiLogger/Files.antt =====
-- What happens when a file cannot be opened: the calls of the service from then on.
use mathlib.Core.Path.{subst}
use skynet_server.Common.{
  ℕ, ◌≡◌, refl, sym, ap, ◌∙◌, inl, inr, true, false, not, Option, none, some, List, [], ◌∷◌, ◌++◌,
  append_assoc, take, Bool-cases,
}
use skynet_server.Common.Bytes.{Bytes, codes}
use skynet_server.Common.Int.{pos}
use skynet_server.BusiLogger.{
  Handle, file, stdout, BusiLogger, Directory, Answers, Call, Outcome, mkdir, fopen, fflush, fclose,
  fwrite, report, callback, register, sameday, busi_create_dir, busi_open_file, reopen, needs_file,
  busi_update_name, busilogger_cb, write, after_write, after_first, and_then, run,
}
use skynet_server.BusiLogger.Written.{written, written-busi_open_file}
use skynet_server.BusiLogger.Rotate.{day_name, busi_update_name-same, busi_update_name-new}

abbrev pub OnStdout : BusiLogger → Type 0
OnStdout inst = inst.handle ≡ some stdout

-- The files that calls try to open.
abbrev pub tried : List Call → List Bytes
tried [] = []
tried (fopen name b ∷ calls) = name ∷ tried calls
tried (fwrite h msg ∷ calls) = tried calls
tried (mkdir dir ∷ calls) = tried calls
tried (fflush h ∷ calls) = tried calls
tried (fclose h ∷ calls) = tried calls
tried (report text ∷ calls) = tried calls
tried (callback ∷ calls) = tried calls
tried (register name ∷ calls) = tried calls

-- The specification: the standard output is not tried again, and elsewhere the file of the day is,
-- whose name has at most 511 bytes.
abbrev pub one_try : Option Handle → Bytes → List Bytes
one_try (some stdout) name = []
one_try (some (file old)) name = take 511 name ∷ []
one_try none name = take 511 name ∷ []

-- The calls for messages to the standard output, and no others.
abbrev pub stdout_calls : List (Answers × Bytes) → List Call
stdout_calls [] = []
stdout_calls ((io, msg) ∷ rest) =
    fwrite stdout msg ∷ fwrite stdout (codes "\n") ∷ fflush stdout ∷ stdout_calls rest

tried-busi_create_dir :
    (dir : Bytes) (d : Directory) (calls : List Call)
    → tried (busi_create_dir dir d ++ calls) ≡ tried calls
tried-busi_create_dir dir Directory.present calls = refl
tried-busi_create_dir dir Directory.created calls = refl
tried-busi_create_dir dir Directory.mkdir_fails calls = refl
tried-busi_create_dir dir Directory.access_fails calls = refl

module _ (mktime_localtime : ℕ → ℕ) (strftime : ℕ → Bytes) where
  -- An operation that leaves the handle on the standard output, with its calls.
  record Leaves (calls : List Call) (o : Outcome) : Type 0 where
    handle : OnStdout o.inst
    calls_are : o.calls ≡ calls

  -- A run that leaves it there.
  abbrev Runs : BusiLogger → List (Answers × Bytes) → List Call → Type 0
  Runs inst messages calls =
      (o : Outcome) × (run mktime_localtime strftime inst messages ≡ some o)
      × (o.calls ≡ calls)
      × OnStdout o.inst

  -- A message behind `busi_update_name`, and the messages behind it.
  Runs-cons :
      (inst : BusiLogger) (io : Answers) (msg : Bytes) (rest : List (Answers × Bytes))
      (calls : List Call)
      → Leaves calls (busi_update_name mktime_localtime strftime inst io)
      → ((next : BusiLogger) → OnStdout next → Runs next rest (stdout_calls rest))
      → Runs inst ((io, msg) ∷ rest) (calls ++ stdout_calls ((io, msg) ∷ rest))
  unfolding run busilogger_cb
  Runs-cons inst io msg rest calls l later =
      let w = later named.inst l.handle in
      (
        record w.0 { calls = (named.calls ++ lines) ++ w.0.calls },
        ap
              (λ h.
                and_then (after_write named (write h msg))
                  (λ i. run mktime_localtime strftime i rest))
              l.handle
            ∙ ap (after_first (record named { calls = named.calls ++ lines })) w.1,
        append_assoc named.calls lines w.0.calls
            ∙ ap (λ t. t ++ (lines ++ w.0.calls)) l.calls_are
            ∙ ap (λ t. calls ++ (lines ++ t)) w.2,
        w.3,
      )
    where
      named : Outcome
      named = busi_update_name mktime_localtime strftime inst io

      lines : List Call
      lines = fwrite stdout msg ∷ fwrite stdout (codes "\n") ∷ fflush stdout ∷ []

  -- `stdout` is kept, whatever the day, and nothing is called.
  stdout-Leaves :
      (inst : BusiLogger) (io : Answers)
      → OnStdout inst
      → Leaves [] (busi_update_name mktime_localtime strftime inst io)
  unfolding needs_file reopen
  stdout-Leaves inst io at =
      elim (Bool-cases (sameday (mktime_localtime io.now) inst.log_create_time)) [
        | inl same ↦
            subst (Leaves [])
              (sym (
                busi_update_name-same mktime_localtime strftime inst io (
                  ap (λ h. needs_file h (mktime_localtime io.now) inst.log_create_time) at
                  ∙ ap not same)))
              (record { handle = at; calls_are = refl })
        | inr differ ↦
            subst (Leaves [])
              (sym (
                busi_update_name-new mktime_localtime strftime inst io (some stdout) at
                  (ap not differ)))
              (record { handle = at; calls_are = refl })
      ]

  stdout-Runs :
      (messages : List (Answers × Bytes)) (inst : BusiLogger)
      → OnStdout inst
      → Runs inst messages (stdout_calls messages)
  unfolding run
  stdout-Runs [] inst at = (record { result = pos 0; inst = inst; calls = [] }, refl, refl, at)
  stdout-Runs ((io, msg) ∷ rest) inst at =
      Runs-cons inst io msg rest [] (stdout-Leaves inst io at) (λ next. stdout-Runs rest next)

  -- The calls of an attempt that fails write nothing and try one file.
  record Fails (handle : Option Handle) (inst : BusiLogger) (io : Answers) (o : Outcome)
      : Type 0 where
    at : OnStdout o.inst
    quiet : written o.calls ≡ []
    tries :
        tried o.calls
        ≡ one_try handle (day_name inst.log_dir inst.log_prefix (strftime io.now_open))

  open-Fails :
      (inst : BusiLogger) (io : Answers)
      → io.opens ≡ false
      → Fails none inst io (busi_open_file strftime inst io)
  open-Fails inst io fails = record {
    at = unfold busi_open_file in rw fails refl;
    quiet = written-busi_open_file strftime inst io;
    tries = unfold busi_open_file in rw fails (tried-busi_create_dir inst.log_dir io.directory _);
  }

  reopen-Fails :
      (handle : Option Handle) (inst : BusiLogger) (io : Answers)
      → inst.handle ≡ handle
      → io.opens ≡ false
      → Fails handle inst io (reopen strftime handle inst io)
  unfolding reopen
  reopen-Fails none inst io at fails = open-Fails inst io fails
  reopen-Fails (some stdout) inst io at fails = record { at = at; quiet = refl; tries = refl }
  reopen-Fails (some (file name)) inst io at fails =
      let o = open-Fails inst io fails in record { at = o.at; quiet = o.quiet; tries = o.tries }

  -- What a run with such an attempt at its start calls.
  abbrev pub Lost : BusiLogger → Answers → List (Answers × Bytes) → Type 0
  Lost inst io messages =
      (before : List Call) × (o : Outcome) × (run mktime_localtime strftime inst messages ≡ some o)
      × (o.calls ≡ before ++ stdout_calls messages)
      × (written before ≡ [])
      × (tried before
          ≡ one_try inst.handle (day_name inst.log_dir inst.log_prefix (strftime io.now_open)))
      × OnStdout o.inst

  -- If a file is needed for a message and cannot be opened, then this one attempt (none where the
  -- handle is the standard output already) is the last call that opens a file: this message and all that
  -- follow are written to the standard output, each with the end of its line and a flush, and nothing
  -- else is called, whatever the system answers from then on.
  pub busi_open_file-failure :
      (inst : BusiLogger) (io : Answers) (msg : Bytes) (rest : List (Answers × Bytes))
      → needs_file inst.handle (mktime_localtime io.now) inst.log_create_time ≡ true
      → io.opens ≡ false
      → Lost inst io ((io, msg) ∷ rest)
  busi_open_file-failure inst io msg rest needed fails =
      let r =
        Runs-cons inst io msg rest named.calls (record { handle = f.at; calls_are = refl })
          (λ next. stdout-Runs rest next) in
      (named.calls, r.0, r.1, r.2, f.quiet, f.tries, r.3)
    where
      named : Outcome
      named = busi_update_name mktime_localtime strftime inst io

      f : Fails inst.handle inst io named
      f =
          let o =
            reopen-Fails inst.handle (record inst { log_create_time = mktime_localtime io.now }) io
              refl fails in
          subst (Fails inst.handle inst io)
            (sym (busi_update_name-new mktime_localtime strftime inst io inst.handle refl needed))
            (record { at = o.at; quiet = o.quiet; tries = o.tries })
