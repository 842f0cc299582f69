-- ===== src/BusiLogger/Tracks.antt =====
-- How many files are open: an operation leaves open what the handle is.
use mathlib.Core.Path.{subst}
use skynet_server.Common.{
  ℕ, ◌+◌, ◌-◌, ◌≡◌, refl, sym, ap, ◌∙◌, inl, inr, Bool, true, false, Option, none, some, List, [],
  ◌∷◌, ◌++◌, Bool-cases,
}
use skynet_server.Common.Bytes.{Bytes, codes}
use skynet_server.Common.Int.{pos}
use skynet_server.BusiLogger.{
  Handle, file, stdout, BusiLogger, Directory, Answers, Call, Outcome, mkdir, fopen, fflush, fclose,
  fwrite, report, callback, register, busi_create_dir, log_name, busi_open_file, reopen, needs_file,
  busi_update_name, busilogger_cb, after_write, after_first, and_then, write, run,
}
use skynet_server.BusiLogger.Rotate.{busi_update_name-same, busi_update_name-new}

-- The number of open files behind the calls, from the number before them.
abbrev pub open_files : ℕ → List Call → ℕ
open_files n [] = n
open_files n (fopen name true ∷ calls) = open_files (n + 1) calls
open_files n (fclose h ∷ calls) = open_files (n - 1) calls
open_files n (fopen name false ∷ calls) = open_files n calls
open_files n (fwrite h msg ∷ calls) = open_files n calls
open_files n (mkdir dir ∷ calls) = open_files n calls
open_files n (fflush h ∷ calls) = open_files n calls
open_files n (report text ∷ calls) = open_files n calls
open_files n (callback ∷ calls) = open_files n calls
open_files n (register name ∷ calls) = open_files n calls

-- Of these the service knows that which its handle is.
abbrev pub held : Option Handle → ℕ
held none = 0
held (some stdout) = 0
held (some (file name)) = 1

pub open_files-append :
    (n : ℕ) (a b : List Call) → open_files n (a ++ b) ≡ open_files (open_files n a) b
open_files-append n [] b = refl
open_files-append n (fopen name true ∷ a) b = open_files-append (n + 1) a b
open_files-append n (fopen name false ∷ a) b = open_files-append n a b
open_files-append n (fclose h ∷ a) b = open_files-append (n - 1) a b
open_files-append n (fwrite h msg ∷ a) b = open_files-append n a b
open_files-append n (mkdir dir ∷ a) b = open_files-append n a b
open_files-append n (fflush h ∷ a) b = open_files-append n a b
open_files-append n (report text ∷ a) b = open_files-append n a b
open_files-append n (callback ∷ a) b = open_files-append n a b
open_files-append n (register name ∷ a) b = open_files-append n a b

open_files-busi_create_dir :
    (n : ℕ) (dir : Bytes) (d : Directory) (calls : List Call)
    → open_files n (busi_create_dir dir d ++ calls) ≡ open_files n calls
open_files-busi_create_dir n dir Directory.present calls = refl
open_files-busi_create_dir n dir Directory.created calls = refl
open_files-busi_create_dir n dir Directory.mkdir_fails calls = refl
open_files-busi_create_dir n dir Directory.access_fails calls = refl

-- An operation from `handle` leaves a handle, does not touch `close`, and the files that it leaves open
-- are what the handle is.
pub record Tracks (handle : Option Handle) (close : Bool) (o : Outcome) : Type 0 where
  pub is_open : Handle
  pub handle_is : o.inst.handle ≡ some is_open
  pub close_is : o.inst.close ≡ close
  pub counted : open_files (held handle) o.calls ≡ held (some is_open)
  pub result : o.result ≡ pos 0

module _ (strftime : ℕ → Bytes) where
  busi_open_file-Tracks :
      (inst : BusiLogger) (io : Answers) → Tracks none inst.close (busi_open_file strftime inst io)
  unfolding busi_open_file
  busi_open_file-Tracks inst io = elim (Bool-cases io.opens) [
    | inl opens ↦ rw opens (record {
      is_open = file (log_name inst.log_dir inst.log_prefix (strftime io.now_open));
      handle_is = refl;
      close_is = refl;
      counted = open_files-busi_create_dir 0 inst.log_dir io.directory _;
      result = refl;
    })
    | inr fails ↦ rw fails (record {
      is_open = stdout;
      handle_is = refl;
      close_is = refl;
      counted = open_files-busi_create_dir 0 inst.log_dir io.directory _;
      result = refl;
    })
  ]

  reopen-Tracks :
      (handle : Option Handle) (inst : BusiLogger) (io : Answers)
      → inst.handle ≡ handle
      → Tracks handle inst.close (reopen strftime handle inst io)
  unfolding reopen
  reopen-Tracks none inst io at = busi_open_file-Tracks inst io
  reopen-Tracks (some stdout) inst io at = record {
    is_open = stdout;
    handle_is = at;
    close_is = refl;
    counted = refl;
    result = refl;
  }
  reopen-Tracks (some (file name)) inst io at =
      let t = busi_open_file-Tracks inst io in
      record {
        is_open = t.is_open;
        handle_is = t.handle_is;
        close_is = t.close_is;
        counted = t.counted;
        result = t.result;
      }

module _ (mktime_localtime : ℕ → ℕ) (strftime : ℕ → Bytes) where
  update-by :
      (handle : Option Handle) (inst : BusiLogger) (io : Answers)
      → inst.handle ≡ handle
      → (needed : Bool) → needs_file handle (mktime_localtime io.now) inst.log_create_time ≡ needed
      → Tracks handle inst.close (busi_update_name mktime_localtime strftime inst io)
  unfolding needs_file
  update-by handle inst io at true e =
      subst (Tracks handle inst.close)
        (sym (busi_update_name-new mktime_localtime strftime inst io handle at e))
        (reopen-Tracks strftime handle (record inst { log_create_time = mktime_localtime io.now })
          io at)
  update-by none inst io at false e = absurd cc
  update-by (some h) inst io at false e =
      subst (Tracks (some h) inst.close)
        (sym (
          busi_update_name-same mktime_localtime strftime inst io
            (ap (λ g. needs_file g (mktime_localtime io.now) inst.log_create_time) at ∙ e)))
        (record { is_open = h; handle_is = at; close_is = refl; counted = refl; result = refl })

  pub busi_update_name-Tracks :
      (inst : BusiLogger) (io : Answers)
      → Tracks inst.handle inst.close (busi_update_name mktime_localtime strftime inst io)
  busi_update_name-Tracks inst io = update-by inst.handle inst io refl _ refl

  busilogger_cb-Tracks :
      (inst : BusiLogger) (io : Answers) (msg : Bytes)
      → (o : Outcome) × (busilogger_cb mktime_localtime strftime inst io msg ≡ some o)
        × Tracks inst.handle inst.close o
  unfolding busilogger_cb
  busilogger_cb-Tracks inst io msg = (
    record named { calls = named.calls ++ writes },
    ap (λ g. after_write named (write g msg)) t.handle_is,
    record {
      is_open = t.is_open;
      handle_is = t.handle_is;
      close_is = t.close_is;
      counted = open_files-append (held inst.handle) named.calls writes ∙ t.counted;
      result = t.result;
    },
  )
    where
      named : Outcome
      named = busi_update_name mktime_localtime strftime inst io

      t : Tracks inst.handle inst.close named
      t = busi_update_name-Tracks inst io

      writes : List Call
      writes = fwrite t.is_open msg ∷ fwrite t.is_open (codes "\n") ∷ fflush t.is_open ∷ []

  pub run-Tracks :
      (inst : BusiLogger) (h : Handle) (messages : List (Answers × Bytes))
      → inst.handle ≡ some h
      → (o : Outcome) × (run mktime_localtime strftime inst messages ≡ some o)
        × Tracks (some h) inst.close o
  unfolding run
  run-Tracks inst h [] at = (
    record { result = pos 0; inst = inst; calls = [] },
    refl,
    record { is_open = h; handle_is = at; close_is = refl; counted = refl; result = refl },
  )
  run-Tracks inst h ((io, msg) ∷ rest) at =
      let c = busilogger_cb-Tracks inst io msg in
      let t = c.2 in
      let w = run-Tracks c.0.inst t.is_open rest t.handle_is in
      let u = w.2 in
      (
        record w.0 { calls = c.0.calls ++ w.0.calls },
        ap (λ d. and_then d (λ i. run mktime_localtime strftime i rest)) c.1
            ∙ ap (after_first c.0) w.1,
        record {
          is_open = u.is_open;
          handle_is = u.handle_is;
          close_is = u.close_is ∙ t.close_is;
          counted =
              open_files-append (held (some h)) c.0.calls w.0.calls
              ∙ ap (λ g. open_files (open_files (held g) c.0.calls) w.0.calls) (sym at)
              ∙ ap (λ n. open_files n w.0.calls) t.counted
              ∙ u.counted;
          result = u.result;
        },
      )
