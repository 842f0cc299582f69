-- ===== src/Package/Handlers/Init.antt =====
-- `package_init` of service_package.c: what it accepts, and what it then does.
use skynet_server.Common.{
  ℕ, ◌≡◌, ◌≢◌, ◌⊎◌, ap, ◌∙◌, inl, inr, Bool-cases, true, false, not, ◌||◌, [], ◌∷◌, arith, ltb,
  ◌==◌, if◌then◌else◌,
}
use skynet_server.Common.Int.{ℤ, pos, ◌==ℤ◌, ==ℤ_iff}
use skynet_server.Package.Types.{
  Package, Junk, socket_start, socket_nodelay, timeout, callback, invalid_param, log, ok,
}
use skynet_server.Package.Handlers.{timer_interval, package_create, package_init, heartbeat}
use skynet_server.Package.Handlers.Refine.{IsSound}
use skynet_server.Package.Handlers.Refine.Serve.{package_create-IsSound}

module _ (J : Junk) where
  -- The state of a new package that `package_init` accepts.
  abbrev pub opened : ℕ → ℤ → Package
  opened manager fd = record (package_create J) {
    manager = manager;
    fd = fd;
    heartbeat = pos 0;
    recv = 0;
  }

  init_accepts :
      (manager : ℕ) (fd : ℤ)
      → manager ≢ 0
      → fd ≢ pos 0
      → (package_init (package_create J) 2 manager fd ≡ (
        ok
            (opened manager fd)
            (socket_start fd ∷ socket_nodelay fd ∷ timeout timer_interval ∷ callback ∷ []),
        false,
      ))
        × IsSound J (opened manager fd)
  unfolding package_init heartbeat package_create
  init_accepts manager fd named open_fd =
      let named' : (manager == 0) ≡ false = ground arith in
      let open' : (fd ==ℤ pos 0) ≡ false = ground (arith, ==ℤ_iff fd (pos 0)) in
      let s = package_create-IsSound J in
      (
        rw (named', open'),
        record {
          fits = record { valid = s.fits.valid; body_fits = s.fits.body_fits };
          settled = s.settled;
          request_valid = s.request_valid;
          exclusive = s.exclusive;
        },
      )

  init_rejects :
      (P : Package) (n manager : ℕ) (fd : ℤ)
      → (n ≢ 2) ⊎ ((manager ≡ 0) ⊎ (fd ≡ pos 0))
      → (P' : Package) × (package_init P n manager fd ≡ (ok P' (log invalid_param ∷ []), true))
  unfolding package_init
  init_rejects P n manager fd bad =
      let refused : (not (n == 2)
            || ((if ltb 0 n then manager else P.manager) == 0
                || ((if ltb 1 n then fd else P.fd) ==ℤ pos 0)))
          ≡ true =
        ground (arith, ==ℤ_iff fd (pos 0)) in
      (
        record P {
          manager = if ltb 0 n then manager else P.manager;
          fd = if ltb 1 n then fd else P.fd;
        },
        rw refused,
      )

  -- What `package_init` of a new package does with `n` numbers that sscanf finds.
  pub data View (n manager : ℕ) (fd : ℤ) : Type 0 where
    accepts :
        n ≡ 2
        → manager ≢ 0
        → fd ≢ pos 0
        → package_init (package_create J) n manager fd ≡ (
          ok
              (opened manager fd)
              (socket_start fd ∷ socket_nodelay fd ∷ timeout timer_interval ∷ callback ∷ []),
          false,
        )
        → IsSound J (opened manager fd)
        → View n manager fd
    rejects :
        (n ≢ 2) ⊎ ((manager ≡ 0) ⊎ (fd ≡ pos 0))
        → (P : Package)
        → package_init (package_create J) n manager fd ≡ (ok P (log invalid_param ∷ []), true)
        → View n manager fd

  rejected : (n manager : ℕ) (fd : ℤ) → (n ≢ 2) ⊎ ((manager ≡ 0) ⊎ (fd ≡ pos 0)) → View n manager fd
  rejected n manager fd bad =
      let r = init_rejects (package_create J) n manager fd bad in rejects bad r.0 r.1

  -- `package_init` of a new package accepts the parameter just if sscanf finds two numbers in it,
  -- neither 0: then it starts the socket, makes it send without delay, sets the timer and registers
  -- the callback, in that order, and leaves a sound state. Else it logs the parameter, calls nothing
  -- else and reports failure.
  pub package_init-View : (n manager : ℕ) (fd : ℤ) → View n manager fd
  package_init-View n manager fd = elim (Bool-cases (n == 2)) [
    | inl two ↦ elim (Bool-cases (manager == 0)) [
      | inl unnamed ↦ rejected n manager fd (inr (inl (ground (arith, unnamed))))
      | inr named ↦ elim (Bool-cases (fd ==ℤ pos 0)) [
        | inl shut ↦ rejected n manager fd (inr (inr ((==ℤ_iff fd (pos 0)).0 shut)))
        | inr open_fd ↦
            let is_two : n ≡ 2 = ground (arith, two) in
            let named' : manager ≢ 0 = ground (arith, named) in
            let open' : fd ≢ pos 0 = ground (arith, open_fd, ==ℤ_iff fd (pos 0)) in
            let s = init_accepts manager fd named' open' in
            accepts is_two named' open'
              (ap (λ k. package_init (package_create J) k manager fd) is_two ∙ s.0) s.1
      ]
    ]
    | inr other ↦ rejected n manager fd (inl (ground (arith, other)))
  ]
