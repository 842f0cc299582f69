-- ===== src/BusiLogger/Written.antt =====
-- What the service writes, among its calls, and to which handle.
use skynet_server.Common.{
  ℕ, ◌≡◌, refl, ap, ◌∙◌, inl, inr, true, false, some, List, [], ◌∷◌, ◌++◌, Bool-cases,
}
use skynet_server.Common.Bytes.{Bytes, codes}
use skynet_server.BusiLogger.{
  Handle, BusiLogger, Directory, Answers, Call, Outcome, mkdir, fopen, fflush, fclose, fwrite,
  report, callback, register, busi_create_dir, log_name, busi_open_file, busi_update_name,
  busilogger_cb, after_write, write,
}

-- What is written, and to which handle, among the calls.
abbrev pub written : List Call → List (Handle × Bytes)
written [] = []
written (fwrite h msg ∷ calls) = (h, msg) ∷ written calls
written (mkdir dir ∷ calls) = written calls
written (fopen name b ∷ calls) = written calls
written (fflush h ∷ calls) = written calls
written (fclose h ∷ calls) = written calls
written (report text ∷ calls) = written calls
written (callback ∷ calls) = written calls
written (register name ∷ calls) = written calls

pub written-append : (a b : List Call) → written (a ++ b) ≡ written a ++ written b
written-append [] b = refl
written-append (fwrite h msg ∷ a) b = ap (λ t. (h, msg) ∷ t) (written-append a b)
written-append (mkdir dir ∷ a) b = written-append a b
written-append (fopen name s ∷ a) b = written-append a b
written-append (fflush h ∷ a) b = written-append a b
written-append (fclose h ∷ a) b = written-append a b
written-append (report text ∷ a) b = written-append a b
written-append (callback ∷ a) b = written-append a b
written-append (register name ∷ a) b = written-append a b

pub written-busi_create_dir : (dir : Bytes) (d : Directory) → written (busi_create_dir dir d) ≡ []
written-busi_create_dir dir Directory.present = refl
written-busi_create_dir dir Directory.created = refl
written-busi_create_dir dir Directory.mkdir_fails = refl
written-busi_create_dir dir Directory.access_fails = refl

-- Each message and the end of its line, at the handle that `place` gives for its answers.
abbrev pub lines_at : (Answers → Handle) → List (Answers × Bytes) → List (Handle × Bytes)
lines_at place [] = []
lines_at place ((io, msg) ∷ rest) = (place io, msg) ∷ (place io, codes "\n") ∷ lines_at place rest

module _ (strftime : ℕ → Bytes) where
  -- Whatever the answers, opening a file writes nothing into it.
  pub written-busi_open_file :
      (inst : BusiLogger) (io : Answers) → written (busi_open_file strftime inst io).calls ≡ []
  unfolding busi_open_file
  written-busi_open_file inst io = elim (Bool-cases io.opens) [
    | inl opens ↦ rw opens (created (fopen name true ∷ []))
    | inr fails ↦ rw fails (
        created
          (fopen name false ∷ report (codes "busi_open_file open file error") ∷ report name ∷ []))
  ]
    where
      name : Bytes
      name = log_name inst.log_dir inst.log_prefix (strftime io.now_open)

      created :
          (calls : List Call)
          → written (busi_create_dir inst.log_dir io.directory ++ calls) ≡ written calls
      created calls =
          written-append (busi_create_dir inst.log_dir io.directory) calls
          ∙ ap (λ t. t ++ written calls) (written-busi_create_dir inst.log_dir io.directory)

-- Behind `busi_update_name`.
pub busilogger_cb-eq :
    (mktime_localtime : ℕ → ℕ) (strftime : ℕ → Bytes) (inst : BusiLogger) (io : Answers)
    (msg : Bytes) (h : Handle)
    → (busi_update_name mktime_localtime strftime inst io).inst.handle ≡ some h
    → written (busi_update_name mktime_localtime strftime inst io).calls ≡ []
    → (o : Outcome) × (busilogger_cb mktime_localtime strftime inst io msg ≡ some o)
      × (o.inst ≡ (busi_update_name mktime_localtime strftime inst io).inst)
      × (written o.calls ≡ (h, msg) ∷ (h, codes "\n") ∷ [])
unfolding busilogger_cb
busilogger_cb-eq mktime_localtime strftime inst io msg h at quiet = (
  record (busi_update_name mktime_localtime strftime inst io) { calls = calls ++ writes },
  ap (λ w. after_write (busi_update_name mktime_localtime strftime inst io) (write w msg)) at,
  refl,
  written-append calls writes ∙ ap (λ t. t ++ written writes) quiet,
)
  where
    calls : List Call
    calls = (busi_update_name mktime_localtime strftime inst io).calls

    writes : List Call
    writes = fwrite h msg ∷ fwrite h (codes "\n") ∷ fflush h ∷ []
