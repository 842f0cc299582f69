-- ===== src/BusiLogger/Leak.antt =====
-- What is left open at the end: `busilogger_release` closes nothing, since nothing sets `close`.
use mathlib.Core.Path.{subst}
use skynet_server.Common.{
  ℕ, ◌≡◌, refl, sym, ap, ◌∙◌, false, Option, none, some, List, [], ◌∷◌, ◌++◌, arith, if◌then◌else◌,
}
use skynet_server.Common.Bytes.{Bytes}
use skynet_server.Common.Int.{pos}
use skynet_server.BusiLogger.{
  BusiLogger, Answers, Outcome, callback, register, busi_update_name, run, close_handle,
  busilogger_release, busilogger_create,
}
use skynet_server.BusiLogger.Init.{
  registered, with_close, init_words, init_stored, service_name, store_words, words,
  busilogger_init,
}
use skynet_server.BusiLogger.Life.{registered-opened}
use skynet_server.BusiLogger.Tracks.{
  open_files, held, open_files-append, Tracks, busi_update_name-Tracks, run-Tracks,
}

store_words-keeps :
    (texts : List Bytes) (inst stored : BusiLogger)
    → store_words texts inst ≡ some stored
    → (stored.handle ≡ inst.handle) × (stored.close ≡ inst.close)
store_words-keeps texts inst stored e = ground arith

module _ (mktime_localtime : ℕ → ℕ) (strftime : ℕ → Bytes) where
  -- Any messages after a start, and the release of the service.
  abbrev pub Leaks : Outcome → List (Answers × Bytes) → Type 0
  Leaks started messages =
      (o : Outcome) × (run mktime_localtime strftime started.inst messages ≡ some o)
      × (busilogger_release o.inst ≡ some [])
      × (open_files 0 (started.calls ++ o.calls) ≡ held o.inst.handle)

  leaks :
      (inst : BusiLogger) (io : Answers) (name : Bytes) (messages : List (Answers × Bytes))
      → inst.handle ≡ none
      → inst.close ≡ false
      → Leaks
          (registered name (with_close (busi_update_name mktime_localtime strftime inst io)))
          messages
  unfolding busilogger_release
  leaks inst io name messages empty unset =
      subst (λ s. Leaks s messages)
        (sym (registered-opened name named t.result t.is_open t.handle_is))
        (
          w.0,
          w.1,
          ap (λ b. if b then close_handle w.0.inst.handle else some [])
              (u.close_is ∙ t.close_is ∙ unset),
          open_files-append 0 (named.calls ++ (callback ∷ register name ∷ [])) w.0.calls
              ∙ ap (λ n. open_files n w.0.calls)
                  (open_files-append 0 named.calls (callback ∷ register name ∷ [])
                    ∙ ap (λ g. open_files (held g) named.calls) (sym empty)
                    ∙ t.counted)
              ∙ u.counted
              ∙ ap held (sym u.handle_is),
        )
    where
      named : Outcome
      named = busi_update_name mktime_localtime strftime inst io

      t : Tracks inst.handle inst.close named
      t = busi_update_name-Tracks mktime_localtime strftime inst io

      w :
          (o : Outcome) × (run mktime_localtime strftime named.inst messages ≡ some o)
          × Tracks (some t.is_open) named.inst.close o
      w = run-Tracks mktime_localtime strftime named.inst t.is_open messages t.handle_is

      u : Tracks (some t.is_open) named.inst.close w.0
      u = w.2

  init-Leaks :
      (stored : Option BusiLogger) (name : Option Bytes) (io : Answers) (started : Outcome)
      (messages : List (Answers × Bytes))
      → ((s : BusiLogger) → stored ≡ some s → (s.handle ≡ none) × (s.close ≡ false))
      → init_stored mktime_localtime strftime stored name io ≡ some started
      → started.result ≡ pos 0
      → Leaks started messages
  unfolding init_words
  init-Leaks none name io started messages keeps e ok = absurd cc
  init-Leaks (some s) none io started messages keeps e ok = absurd (ground (arith, e, ok))
  init-Leaks (some s) (some name) io started messages keeps e ok =
      let same : registered name (with_close (busi_update_name mktime_localtime strftime s io))
          ≡ started =
        cc in
      subst (λ t. Leaks t messages) same
        (leaks s io name messages (keeps s refl).0 (keeps s refl).1)

  -- After a start that reports success and any messages, whatever the system answers, the release of
  -- the service calls nothing, and the files that have been opened and not closed are 1 if the handle
  -- is a file and 0 if it is the standard output.
  pub busilogger_release-Leaks :
      (junk : BusiLogger) (parm : Option Bytes) (io : Answers) (started : Outcome)
      (messages : List (Answers × Bytes))
      → busilogger_init mktime_localtime strftime (busilogger_create junk) parm io ≡ some started
      → started.result ≡ pos 0
      → Leaks started messages
  unfolding busilogger_init
  busilogger_release-Leaks junk none io started messages e ok = absurd (ground (arith, e, ok))
  busilogger_release-Leaks junk (some parm) io started messages e ok =
      init-Leaks (store_words (words parm) (busilogger_create junk)) (service_name (words parm)) io
        started messages (store_words-keeps (words parm) (busilogger_create junk)) e ok
