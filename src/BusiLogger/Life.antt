-- ===== src/BusiLogger/Life.antt =====
-- The service from its start on.
use skynet_server.Common.{
  ℕ, ◌+◌, ◌≤◌, length, ◌≡◌, refl, ap, ◌∙◌, true, some, List, [], ◌∷◌, ◌++◌, if◌then◌else◌,
}
use skynet_server.Common.Bytes.{Bytes}
use skynet_server.Common.Int.{pos, negsuc, ◌==ℤ◌}
use skynet_server.BusiLogger.{
  Handle, BusiLogger, Answers, Outcome, callback, register, busilogger_create, busi_update_name,
  run,
}
use skynet_server.BusiLogger.Init.{
  register_name, registered, with_close, init_words, init_stored, service_name, store_words,
  busilogger_init,
}
use skynet_server.BusiLogger.Words.{IsParameter, parameter, words-parameter, store_words-fits}
use skynet_server.BusiLogger.Written.{written, written-append, lines_at}
use skynet_server.BusiLogger.Rotate.{
  IsBeijingTime, IsSmooth, IsNamed, IsDated, unopened, at_day, busi_update_name-IsNamed,
}
use skynet_server.BusiLogger.Run.{AllAnswers, Writes, IsReady, run-Writes}

pub registered-opened :
    (name : Bytes) (named : Outcome)
    → named.result ≡ pos 0
    → (h : Handle) → named.inst.handle ≡ some h
    → registered name (with_close named)
      ≡ record named { result = pos 0; calls = named.calls ++ (callback ∷ register name ∷ []) }
registered-opened name named result h at =
    ap
      (λ b.
        registered name
          (if b then record named { inst = record named.inst { close = true } } else named))
      (ap (λ r. r ==ℤ negsuc 0) result)
    ∙ ap (λ g. register_name g name named) at

module _ (mktime_localtime : ℕ → ℕ) (strftime : ℕ → Bytes) where
  init-stored :
      (junk : BusiLogger) (name dir prefix : Bytes) (io : Answers)
      → IsParameter name dir prefix
      → busilogger_init mktime_localtime strftime
          (busilogger_create junk)
          (some (parameter name dir prefix))
          io
        ≡ some (
            init_words mktime_localtime strftime
              (some name)
              (record (busilogger_create junk) { log_dir = dir; log_prefix = prefix })
              io)
  unfolding busilogger_init
  init-stored junk name dir prefix io v =
      ap
        (λ w.
          init_stored mktime_localtime strftime (store_words w (busilogger_create junk))
            (service_name w) io)
        (words-parameter name dir prefix v.plain_name v.plain_dir v.plain_prefix)
      ∙ ap (λ s. init_stored mktime_localtime strftime s (some name) io)
          (store_words-fits name dir prefix (busilogger_create junk) v.fits_name v.fits_dir
            v.fits_prefix)

  -- What the service writes, from `busilogger_init` on.
  abbrev pub WritesLines :
      BusiLogger → (name dir prefix : Bytes) → Answers → List (Answers × Bytes) → Type 0
  WritesLines junk name dir prefix io messages =
      (started : Outcome) × (busilogger_init mktime_localtime strftime (busilogger_create junk)
          (some (parameter name dir prefix)) io
        ≡ some started)
      × (started.result ≡ pos 0)
      × (o : Outcome) × (run mktime_localtime strftime started.inst messages ≡ some o)
      × (written (started.calls ++ o.calls) ≡ lines_at (at_day strftime dir prefix) messages)

  -- If the zone of the machine is UTC+8, files can be opened and midnight does not fall between the two
  -- readings of the clock in one message: a service whose parameter is a name, a directory and a prefix
  -- that fit their arrays, directory and prefix of at most 497 bytes together, starts, and writes each
  -- message, in order and with the end of its line, to the file `directory/prefix.log.date` with the
  -- date on which the message arrives, in eight digits.
  pub busilogger_init-run :
      IsBeijingTime mktime_localtime strftime
      → (junk : BusiLogger) (name dir prefix : Bytes) (io : Answers)
        (messages : List (Answers × Bytes))
      → IsParameter name dir prefix
      → length dir + length prefix ≤ 497
      → IsSmooth io
      → AllAnswers IsSmooth messages
      → WritesLines junk name dir prefix io messages
  busilogger_init-run zone junk name dir prefix io messages v fits smooth more = (
    record named { result = pos 0; calls = named.calls ++ (callback ∷ register name ∷ []) },
    init-stored junk name dir prefix io v
        ∙ ap some (
            unfold init_words in
            registered-opened name named n.result (at_day strftime dir prefix io) n.handle),
    refl,
    w.0,
    w.1,
    written-append (named.calls ++ (callback ∷ register name ∷ [])) w.0.calls
        ∙ ap (λ t. t ++ written w.0.calls)
            (written-append named.calls (callback ∷ register name ∷ []))
        ∙ ap (λ t. (t ++ []) ++ written w.0.calls) n.quiet
        ∙ w.2,
  )
    where
      stored : BusiLogger
      stored = record (busilogger_create junk) { log_dir = dir; log_prefix = prefix }

      named : Outcome
      named = busi_update_name mktime_localtime strftime stored io

      ready :
          (i : BusiLogger) (io : Answers)
          → IsDated strftime dir prefix i
          → IsSmooth io
          → IsReady mktime_localtime strftime
              (at_day strftime dir prefix)
              (IsDated strftime dir prefix)
              io
              (busi_update_name mktime_localtime strftime i io)
      ready i io dated smooth =
          let n =
            busi_update_name-IsNamed mktime_localtime strftime zone dir prefix fits i io dated
              smooth in
          record { handle = n.handle; quiet = n.quiet; kept = n.dated }

      n : IsNamed strftime dir prefix io.now named
      n =
          busi_update_name-IsNamed mktime_localtime strftime zone dir prefix fits stored io
            (unopened refl refl refl) smooth

      w :
          Writes mktime_localtime strftime
            (at_day strftime dir prefix)
            (IsDated strftime dir prefix)
            named.inst
            messages
      w =
          run-Writes mktime_localtime strftime (at_day strftime dir prefix)
            (IsDated strftime dir prefix) IsSmooth ready named.inst messages n.dated more
