-- ===== src/BusiLogger.antt =====
-- The service that writes the business log, server/lualib-src/service_busilogger.c: one file for
-- each day, in a directory and under a prefix that the parameter of the service names.
pub mod Init
pub mod Words
pub mod Written
pub mod Rotate
pub mod Run
pub mod Files
pub mod Tracks
pub mod Leak
pub mod Life
mod Tests
use skynet_server.Common.{
  ℕ, ◌+◌, ◌*◌, ◌/◌, Bool, true, false, not, ◌||◌, Option, none, some, List, [], ◌∷◌, ◌++◌, take,
  ◌==◌, if◌then◌else◌,
}
use skynet_server.Common.Bytes.{Bytes, codes}
use skynet_server.Common.Int.{ℤ, pos}

-- A `FILE *` that is not NULL: the file that `fopen` has opened, or `stdout`.
pub data Handle : Type 0 where
  file : Bytes → Handle
  stdout : Handle

pub record BusiLogger : Type 0 where
  pub handle : Option Handle
  pub close : Bool
  pub log_create_time : ℕ
  pub log_dir : Bytes
  pub log_prefix : Bytes

-- What `access` and `mkdir` find.
pub data Directory : Type 0 where
  present : Directory
  created : Directory
  mkdir_fails : Directory
  access_fails : Directory

-- What the system answers while one call of `busi_update_name` runs: the two readings of the clock,
-- the directory, and whether `fopen` succeeds. A time is not negative.
pub record Answers : Type 0 where
  pub now : ℕ
  pub now_open : ℕ
  pub directory : Directory
  pub opens : Bool

-- What the service does outside of its own memory. A report on stderr is without the error number
-- behind it.
pub data Call : Type 0 where
  mkdir : Bytes → Call
  fopen : Bytes → (succeeds : Bool) → Call
  fflush : Handle → Call
  fclose : Handle → Call
  fwrite : Handle → Bytes → Call
  report : Bytes → Call
  callback : Call
  register : Bytes → Call

-- What an operation returns, the state that it leaves, and its calls in their order.
pub record Outcome : Type 0 where
  pub result : ℤ
  pub inst : BusiLogger
  pub calls : List Call

-- `sameday`, with days that start at midnight in the zone UTC+8.
unfoldable pub sameday : ℕ → ℕ → Bool
sameday t1 t2 = (t1 + 8 * 3600) / 86400 == (t2 + 8 * 3600) / 86400

-- A new service; what `skynet_malloc` returns holds `junk`.
abbrev pub busilogger_create : BusiLogger → BusiLogger
busilogger_create junk = record junk { handle = none; close = false }

-- `none`: `fclose` of a handle that is NULL.
abbrev pub close_handle : Option Handle → Option (List Call)
close_handle none = none
close_handle (some h) = some (fclose h ∷ [])

unfoldable pub busilogger_release : BusiLogger → Option (List Call)
busilogger_release inst = if inst.close then close_handle inst.handle else some []

-- `busi_create_dir`, whose result the caller does not look at.
abbrev pub busi_create_dir : Bytes → Directory → List Call
busi_create_dir dir present = []
busi_create_dir dir created = mkdir dir ∷ []
busi_create_dir dir mkdir_fails = mkdir dir ∷ report (codes "busi_create_dir mkdir error") ∷ []
busi_create_dir dir access_fails = report (codes "busi_create_dir access dir error") ∷ []

-- The text that `snprintf` leaves in `filename`, which has room for 511 bytes.
abbrev pub log_name : Bytes → Bytes → Bytes → Bytes
log_name dir prefix timebuf =
    take 511 (dir ++ (codes "/" ++ (prefix ++ (codes ".log." ++ timebuf))))

-- `need_create`
unfoldable pub needs_file : Option Handle → ℕ → ℕ → Bool
unfolding sameday
needs_file none now_local log_create_time = true
needs_file (some h) now_local log_create_time = not (sameday now_local log_create_time)

-- The two writes of a message and the flush, to a handle that is there.
abbrev pub write : Option Handle → Bytes → Option (List Call)
write none msg = none
write (some h) msg = some (fwrite h msg ∷ fwrite h (codes "\n") ∷ fflush h ∷ [])

abbrev pub after_write : Outcome → Option (List Call) → Option Outcome
after_write named none = none
after_write named (some calls) = some (record named { calls = named.calls ++ calls })

abbrev pub after_first : Outcome → Option Outcome → Option Outcome
after_first o none = none
after_first o (some last) = some (record last { calls = o.calls ++ last.calls })

-- What follows a message, with the state that it left.
abbrev pub and_then : Option Outcome → (BusiLogger → Option Outcome) → Option Outcome
and_then none rest = none
and_then (some o) rest = after_first o (rest o.inst)

-- `localtime_r` with `strftime` and its format "%Y%m%d".
module _ (strftime : ℕ → Bytes) where
  unfoldable pub busi_open_file : BusiLogger → Answers → Outcome
  busi_open_file inst io =
      let filename : Bytes = log_name inst.log_dir inst.log_prefix (strftime io.now_open) in
      let directory : List Call = busi_create_dir inst.log_dir io.directory in
      if io.opens
      then record {
        result = pos 0;
        inst = record inst { handle = some (file filename) };
        calls = directory ++ (fopen filename true ∷ []);
      }
      else record {
        result = pos 0;
        inst = record inst { handle = some stdout };
        calls =
            directory
            ++ (fopen filename false
                ∷ report (codes "busi_open_file open file error")
                ∷ report filename
                ∷ []);
      }

  -- Behind the tests of `busi_update_name`, by the handle.
  unfoldable pub reopen : Option Handle → BusiLogger → Answers → Outcome
  unfolding busi_open_file
  reopen none inst io = busi_open_file inst io
  reopen (some stdout) inst io = record { result = pos 0; inst = inst; calls = [] }
  reopen (some (file name)) inst io =
      let opened : Outcome = busi_open_file inst io in
      record opened { calls = fflush (file name) ∷ fclose (file name) ∷ opened.calls }

-- `mktime` of what `localtime` gives.
module _ (mktime_localtime : ℕ → ℕ) (strftime : ℕ → Bytes) where
  unfoldable pub busi_update_name : BusiLogger → Answers → Outcome
  unfolding reopen needs_file
  busi_update_name inst io =
      let now_local : ℕ = mktime_localtime io.now in
      if needs_file inst.handle now_local inst.log_create_time
      then reopen strftime inst.handle (record inst { log_create_time = now_local }) io
      else record { result = pos 0; inst = inst; calls = [] }

  -- `none`: a write to a handle that is NULL.
  unfoldable pub busilogger_cb : BusiLogger → Answers → Bytes → Option Outcome
  unfolding busi_update_name
  busilogger_cb inst io msg =
      let named : Outcome = busi_update_name inst io in
      after_write named (write named.inst.handle msg)

  -- The messages that arrive, in order, each with what the system answers.
  unfoldable pub run : BusiLogger → List (Answers × Bytes) → Option Outcome
  unfolding busilogger_cb
  run inst [] = some (record { result = pos 0; inst = inst; calls = [] })
  run inst ((io, msg) ∷ rest) = and_then (busilogger_cb inst io msg) (λ inst. run inst rest)
