-- ===== src/BusiLogger/Rotate.antt =====
-- Which file is open: `busi_update_name` leaves the file of the day open, whether it keeps the one that
-- is open, opens the first or changes to another.
use mathlib.Core.Path.{subst}
use skynet_server.Common.{
  ℕ, ◌+◌, ◌≤◌, ◌++◌, length, length-append, arith, ◌≡◌, refl, sym, ap, ◌∙◌, inl, inr, true, false,
  Option, none, some, [], not, Bool-cases, if◌then◌else◌,
}
use skynet_server.Common.Bytes.{Bytes, codes, take-all}
use skynet_server.Common.Int.{pos}
use skynet_server.BusiLogger.{
  Handle, file, BusiLogger, Answers, Outcome, sameday, log_name, busi_open_file, reopen, needs_file,
  busi_update_name,
}
use skynet_server.BusiLogger.Written.{written, written-busi_open_file}

-- The zone of the machine is UTC+8: `mktime` undoes `localtime`, and the date that `strftime` prints
-- has eight digits and changes only where `sameday` sees another day.
pub record IsBeijingTime (mktime_localtime : ℕ → ℕ) (strftime : ℕ → Bytes) : Type 0 where
  pub round : (t : ℕ) → mktime_localtime t ≡ t
  pub one_date : (t u : ℕ) → sameday t u ≡ true → strftime t ≡ strftime u
  pub eight_digits : (t : ℕ) → length (strftime t) ≡ 8

-- Files can be opened, and midnight does not fall between the two readings of the clock.
pub record IsSmooth (io : Answers) : Type 0 where
  pub opens : io.opens ≡ true
  pub same : sameday io.now_open io.now ≡ true

-- The specification: the whole name of the file of a day.
abbrev pub day_name : (dir prefix date : Bytes) → Bytes
day_name dir prefix date = dir ++ (codes "/" ++ (prefix ++ (codes ".log." ++ date)))

-- A name that has room for its date is not cut.
log_name-fits :
    (dir prefix date : Bytes)
    → length dir + length prefix ≤ 497
    → length date ≡ 8
    → log_name dir prefix date ≡ day_name dir prefix date
log_name-fits dir prefix date fits eight = take-all (day_name dir prefix date) 511 (
    omega (
      arith,
      fits,
      eight,
      length-append dir (codes "/" ++ (prefix ++ (codes ".log." ++ date))),
      length-append prefix (codes ".log." ++ date),
    ))

module _ (strftime : ℕ → Bytes) where
  -- The file for a time.
  abbrev pub day_file : Bytes → Bytes → ℕ → Handle
  day_file dir prefix t = file (day_name dir prefix (strftime t))

  -- The specification: the file of the day of a message.
  abbrev pub at_day : Bytes → Bytes → Answers → Handle
  at_day dir prefix io = day_file dir prefix io.now

  -- No file is open yet, or the open one is that of the day of its creation.
  pub data IsDated (dir prefix : Bytes) (inst : BusiLogger) : Type 0 where
    unopened :
        inst.handle ≡ none → inst.log_dir ≡ dir → inst.log_prefix ≡ prefix → IsDated dir prefix inst
    opened :
        inst.handle ≡ some (day_file dir prefix inst.log_create_time)
        → inst.log_dir ≡ dir
        → inst.log_prefix ≡ prefix
        → IsDated dir prefix inst

  -- What `busi_update_name` is to leave at a time: the file of that day is open.
  pub record IsNamed (dir prefix : Bytes) (t : ℕ) (o : Outcome) : Type 0 where
    pub handle : o.inst.handle ≡ some (day_file dir prefix t)
    pub dated : IsDated dir prefix o.inst
    pub quiet : written o.calls ≡ []
    pub result : o.result ≡ pos 0

  pub busi_open_file-IsNamed :
      (dir prefix : Bytes) (inst : BusiLogger) (io : Answers)
      → inst.log_dir ≡ dir
      → inst.log_prefix ≡ prefix
      → io.opens ≡ true
      → strftime io.now_open ≡ strftime io.now
      → inst.log_create_time ≡ io.now
      → log_name dir prefix (strftime io.now) ≡ day_name dir prefix (strftime io.now)
      → IsNamed dir prefix io.now (busi_open_file strftime inst io)
  busi_open_file-IsNamed dir prefix inst io d p opens date t whole = record {
    handle = handle;
    dated =
        opened (handle ∙ ap (λ u. some (day_file dir prefix u)) (sym created)) same_dir same_prefix;
    quiet = written-busi_open_file strftime inst io;
    result = result;
  }
    where
      handle : (busi_open_file strftime inst io).inst.handle ≡ some (day_file dir prefix io.now)
      handle = unfold busi_open_file in rw (opens, d, p, date) (ap (λ name. some (file name)) whole)

      created : (busi_open_file strftime inst io).inst.log_create_time ≡ io.now
      created = unfold busi_open_file in rw opens t

      same_dir : (busi_open_file strftime inst io).inst.log_dir ≡ dir
      same_dir = unfold busi_open_file in rw opens d

      same_prefix : (busi_open_file strftime inst io).inst.log_prefix ≡ prefix
      same_prefix = unfold busi_open_file in rw opens p

      result : (busi_open_file strftime inst io).result ≡ pos 0
      result = unfold busi_open_file in rw opens refl

module _ (mktime_localtime : ℕ → ℕ) (strftime : ℕ → Bytes) where
  pub busi_update_name-same :
      (inst : BusiLogger) (io : Answers)
      → needs_file inst.handle (mktime_localtime io.now) inst.log_create_time ≡ false
      → busi_update_name mktime_localtime strftime inst io
        ≡ record { result = pos 0; inst = inst; calls = [] }
  unfolding busi_update_name
  busi_update_name-same inst io e =
      ap
        (λ b.
          if b
          then reopen strftime inst.handle
              (record inst { log_create_time = mktime_localtime io.now }) io
          else record { result = pos 0; inst = inst; calls = [] })
        e

  pub busi_update_name-new :
      (inst : BusiLogger) (io : Answers) (handle : Option Handle)
      → inst.handle ≡ handle
      → needs_file handle (mktime_localtime io.now) inst.log_create_time ≡ true
      → busi_update_name mktime_localtime strftime inst io
        ≡ reopen strftime handle (record inst { log_create_time = mktime_localtime io.now }) io
  unfolding busi_update_name
  busi_update_name-new inst io handle at e =
      ap
        (λ h.
          if needs_file h (mktime_localtime io.now) inst.log_create_time
          then reopen strftime h (record inst { log_create_time = mktime_localtime io.now }) io
          else record { result = pos 0; inst = inst; calls = [] })
        at
      ∙ ap
          (λ b.
            if b
            then reopen strftime handle (record inst { log_create_time = mktime_localtime io.now })
                io
            else record { result = pos 0; inst = inst; calls = [] })
          e

module _ (mktime_localtime : ℕ → ℕ) (strftime : ℕ → Bytes)
    (zone : IsBeijingTime mktime_localtime strftime) (dir prefix : Bytes)
    (fits : length dir + length prefix ≤ 497) where
  -- From the open file of an earlier day.
  rotate :
      (inst : BusiLogger) (io : Answers) (name : Bytes)
      → IsNamed strftime dir prefix io.now (busi_open_file strftime inst io)
      → IsNamed strftime dir prefix io.now (reopen strftime (some (file name)) inst io)
  unfolding reopen
  rotate inst io name n = record {
    handle = n.handle;
    dated = n.dated;
    quiet = n.quiet;
    result = n.result;
  }

  stay :
      (inst : BusiLogger) (io : Answers)
      → inst.handle ≡ some (day_file strftime dir prefix inst.log_create_time)
      → IsDated strftime dir prefix inst
      → sameday (mktime_localtime io.now) inst.log_create_time ≡ true
      → IsNamed strftime dir prefix io.now (record { result = pos 0; inst = inst; calls = [] })
  stay inst io at dated same = record {
    handle = at ∙ ap (λ date. some (file (day_name dir prefix date))) date;
    dated = dated;
    quiet = refl;
    result = refl;
  }
    where
      date : strftime inst.log_create_time ≡ strftime io.now
      date =
          sym (zone.one_date (mktime_localtime io.now) inst.log_create_time same)
          ∙ ap strftime (zone.round io.now)

  pub busi_update_name-IsNamed :
      (inst : BusiLogger) (io : Answers)
      → IsDated strftime dir prefix inst
      → IsSmooth io
      → IsNamed strftime dir prefix io.now (busi_update_name mktime_localtime strftime inst io)
  unfolding needs_file
  busi_update_name-IsNamed inst io (unopened at d p) smooth =
      subst (IsNamed strftime dir prefix io.now)
        (sym (busi_update_name-new mktime_localtime strftime inst io none at refl))
        (unfold reopen in
          busi_open_file-IsNamed strftime dir prefix
            (record inst { log_create_time = mktime_localtime io.now }) io d p smooth.opens
            (zone.one_date io.now_open io.now smooth.same) (zone.round io.now)
            (log_name-fits dir prefix (strftime io.now) fits (zone.eight_digits io.now)))
  busi_update_name-IsNamed inst io (opened at d p) smooth =
      elim (Bool-cases (sameday (mktime_localtime io.now) inst.log_create_time)) [
        | inl same ↦
            subst (IsNamed strftime dir prefix io.now)
              (sym (busi_update_name-same mktime_localtime strftime inst io (rw at (ap not same))))
              (stay inst io at (opened at d p) same)
        | inr differ ↦
            subst (IsNamed strftime dir prefix io.now)
              (sym (
                busi_update_name-new mktime_localtime strftime inst io
                  (some (day_file strftime dir prefix inst.log_create_time)) at (ap not differ)))
              (rotate (record inst { log_create_time = mktime_localtime io.now }) io
                (day_name dir prefix (strftime inst.log_create_time))
                (busi_open_file-IsNamed strftime dir prefix
                  (record inst { log_create_time = mktime_localtime io.now }) io d p smooth.opens
                  (zone.one_date io.now_open io.now smooth.same) (zone.round io.now)
                  (log_name-fits dir prefix (strftime io.now) fits (zone.eight_digits io.now))))
      ]
