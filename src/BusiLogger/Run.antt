-- ===== src/BusiLogger/Run.antt =====
-- A rule for runs: what each message keeps, and where it is written, holds for all messages.
use mathlib.Core.Path.{subst}
use skynet_server.Common.{ℕ, ◌≡◌, refl, sym, ap, ◌∙◌, some, List, [], ◌∷◌, ◌++◌}
use skynet_server.Common.Bytes.{Bytes, codes}
use skynet_server.Common.Int.{pos}
use skynet_server.BusiLogger.{
  Handle, BusiLogger, Answers, Outcome, busi_update_name, busilogger_cb, after_first, and_then, run,
}
use skynet_server.BusiLogger.Written.{written, written-append, busilogger_cb-eq, lines_at}

abbrev pub AllAnswers : (Answers → Type 0) → List (Answers × Bytes) → Type 0
AllAnswers Q [] = Unit {0}
AllAnswers Q ((io, msg) ∷ rest) = Q io × AllAnswers Q rest

module _ (mktime_localtime : ℕ → ℕ) (strftime : ℕ → Bytes) (place : Answers → Handle)
    (P : BusiLogger → Type 0) where
  -- `run` ends, writes each message and the end of its line where `place` says, and leaves `P`.
  abbrev pub Writes : BusiLogger → List (Answers × Bytes) → Type 0
  Writes inst messages =
      (o : Outcome) × (run mktime_localtime strftime inst messages ≡ some o)
      × (written o.calls ≡ lines_at place messages)
      × P o.inst

  -- What `busi_update_name` is to do before a message.
  pub record IsReady (io : Answers) (o : Outcome) : Type 0 where
    pub handle : o.inst.handle ≡ some (place io)
    pub quiet : written o.calls ≡ []
    pub kept : P o.inst

  -- A message and those behind it.
  pub Writes-cons :
      (inst : BusiLogger) (io : Answers) (msg : Bytes) (rest : List (Answers × Bytes)) (o : Outcome)
      → busilogger_cb mktime_localtime strftime inst io msg ≡ some o
      → written o.calls ≡ (place io, msg) ∷ (place io, codes "\n") ∷ []
      → Writes o.inst rest
      → Writes inst ((io, msg) ∷ rest)
  unfolding run
  Writes-cons inst io msg rest o e first w = (
    record w.0 { calls = o.calls ++ w.0.calls },
    ap (λ c. and_then c (λ i. run mktime_localtime strftime i rest)) e ∙ ap (after_first o) w.1,
    written-append o.calls w.0.calls
        ∙ ap (λ t. t ++ written w.0.calls) first
        ∙ ap (λ t. (place io, msg) ∷ (place io, codes "\n") ∷ t) w.2,
    w.3,
  )

  pub run-Writes :
      (Q : Answers → Type 0)
      → ((i : BusiLogger) (io : Answers)
          → P i
          → Q io
          → IsReady io (busi_update_name mktime_localtime strftime i io))
      → (inst : BusiLogger) (messages : List (Answers × Bytes)) → P inst
      → AllAnswers Q messages
      → Writes inst messages
  unfolding run
  run-Writes Q ready inst [] p q =
      (record { result = pos 0; inst = inst; calls = [] }, refl, refl, p)
  run-Writes Q ready inst ((io, msg) ∷ rest) p (q, more) =
      let n = ready inst io p q in
      let s = busilogger_cb-eq mktime_localtime strftime inst io msg (place io) n.handle n.quiet in
      Writes-cons inst io msg rest s.0 s.1 s.3
        (run-Writes Q ready s.0.inst rest (subst P (sym s.2) n.kept) more)
