-- ===== src/Package/Flow/Timer.antt =====
-- The heartbeat of the package service: between two ticks of its timer, what came from the socket is
-- counted in `recv`, and a tick that finds nothing counted closes the connection.
use skynet_server.Common.{
  ℕ, ◌+◌, ◌<◌, ◌≢◌, ◌≡◌, refl, ap, ◌∙◌, inl, inr, true, false, List, [], ◌∷◌, ◌++◌, arith,
  Bool-cases, if◌then◌else◌,
}
use skynet_server.Common.Int.{pos, ◌==ℤ◌, ==ℤ_iff}
use skynet_server.Package.Types.{
  Package, Junk, Effect, Run, ok, socket_shutdown, log, timed_out, timeout,
}
use skynet_server.Package.Spec.{Service, serve}
use skynet_server.Package.Handlers.{message_handler, heartbeat, timer_interval}
use skynet_server.Package.Handlers.Refine.{IsSound, model}
use skynet_server.Package.Handlers.Refine.Serve.{HasCommand, message_handler-serve}
use skynet_server.Package.Flow.{Event, run, AllCommands}
use skynet_server.Package.Flow.Counts.{data_of, data_messages, serve-Counts, NoTick, NoTicks}

module _ (J : Junk) where
  -- A run from `P` that counts `n` messages.
  record Counted (P : Package) (n : ℕ) (r : Run) : Type 0 where
    end : Package
    calls : List Effect
    ends : r ≡ ok end calls
    sound : IsSound J end
    counted : end.recv ≡ P.recv + n
    same_beat : end.heartbeat ≡ P.heartbeat
    same_fd : end.fd ≡ P.fd

  step-Counted :
      (P : Package) (e : Event)
      → IsSound J P
      → HasCommand e.message
      → NoTick e.message
      → Counted P (data_of e.message) (message_handler J P e.message e.from.session e.from.source)
  unfolding model
  step-Counted P e s command quiet =
      let (P', f) = message_handler-serve J P e.message e.from.session e.from.source s command in
      let k = serve-Counts P.uncomplete.sz (model J P) e.message e.from quiet in
      record {
        end = P';
        calls = (serve P.uncomplete.sz (model J P) e.message e.from).1;
        ends = f.ends;
        sound = f.sound;
        counted = ap (λ (S : Service). S.recv) f.state ∙ k.counted;
        same_beat = ap (λ (S : Service). S.heartbeat) f.state ∙ k.same_beat;
        same_fd = ap (λ (S : Service). S.fd) f.state ∙ k.same_fd;
      }

  run-Counted :
      (P : Package) (events : List Event)
      → IsSound J P
      → AllCommands events
      → NoTicks events
      → Counted P (data_messages events) (run J P events)
  unfolding run data_messages
  run-Counted P [] s commands quiet = record {
    end = P;
    calls = [];
    ends = refl;
    sound = s;
    counted = omega arith;
    same_beat = refl;
    same_fd = refl;
  }
  run-Counted P (e ∷ events) s commands quiet =
      let d = step-Counted P e s commands.0 quiet.0 in
      let l = run-Counted d.end events d.sound commands.1 quiet.1 in
      record {
        end = l.end;
        calls = d.calls ++ l.calls;
        ends = rw (d.ends, l.ends);
        sound = l.sound;
        counted = omega (arith, d.counted, l.counted);
        same_beat = l.same_beat ∙ d.same_beat;
        same_fd = l.same_fd ∙ d.same_fd;
      }

  -- A tick of the timer that re-arms it, any messages that are no ticks, and the next tick: if some
  -- message carried data from the socket the timer is set again; if none did, the connection is
  -- shut down and the time-out logged, or nothing is called where the service has closed it.
  pub heartbeat_tick :
      (P : Package) (events : List Event)
      → IsSound J P
      → P.heartbeat ≢ pos P.recv
      → AllCommands events
      → NoTicks events
      → (Q : Package) × (heartbeat P ≡ ok Q (timeout timer_interval ∷ []))
        × (end : Package) × (calls : List Effect) × (run J Q events ≡ ok end calls)
        × ((0 < data_messages events
              → (R : Package) × (heartbeat end ≡ ok R (timeout timer_interval ∷ [])))
            × (data_messages events ≡ 0
                → heartbeat end
                  ≡ ok end (
                      if end.closed then [] else socket_shutdown P.fd ∷ log (timed_out P.fd) ∷ [])))
  unfolding heartbeat
  heartbeat_tick P events s due commands quiet = (
    Q,
    rw due' refl,
    c.end,
    c.calls,
    c.ends,
    (
      λ some. (record c.end { heartbeat = pos 0; recv = 0 }, rw (again some) refl),
      λ none. elim (Bool-cases c.end.closed) [
        | inl shut ↦ rw (at_rest none, shut) refl
        | inr open' ↦ rw (at_rest none, open', c.same_fd) refl
      ],
    ),
  )
    where
      due' : (pos P.recv ==ℤ P.heartbeat) ≡ false
      due' = ground (arith, ==ℤ_iff (pos P.recv) P.heartbeat)

      Q : Package
      Q = record P { heartbeat = pos 0; recv = 0 }

      Q-IsSound : IsSound J Q
      Q-IsSound = record {
        fits = record { valid = s.fits.valid; body_fits = s.fits.body_fits };
        settled = s.settled;
        request_valid = s.request_valid;
        exclusive = s.exclusive;
      }

      c : Counted Q (data_messages events) (run J Q events)
      c = run-Counted Q events Q-IsSound commands quiet

      again : 0 < data_messages events → (pos c.end.recv ==ℤ c.end.heartbeat) ≡ false
      again more = rw c.same_beat (ground (arith, c.counted))

      at_rest : data_messages events ≡ 0 → (pos c.end.recv ==ℤ c.end.heartbeat) ≡ true
      at_rest none = rw c.same_beat (ground (arith, c.counted))
