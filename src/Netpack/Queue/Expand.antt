-- ===== src/Netpack/Queue/Expand.antt =====
-- The copy of `expand_queue` against that of `queue_push` in service_package.c, which goes round with a
-- test where this one computes a remainder.
use skynet_server.Common.{
  ℕ, zero, suc, ◌+◌, ◌%◌, ◌<◌, ◌≡◌, refl, sym, ap, ◌∙◌, List, arith, get_or, set, leb, false,
  Bool-cases, inl, inr, tests,
}
use native.Mathlib.Nat.{mod-eq_of_lt, mod-lt, mod_self, mod-add-mod}
use skynet_server.Common.Ring.{advance}
use skynet_server.Netpack.Types.{Netpack}
use skynet_server.Netpack.Queue.{expand_loop}
use skynet_server.Package.Queue.{copy_ring}

advance_of_lt : (cap r : ℕ) → r < cap → advance cap r ≡ (r + 1) % cap
advance_of_lt cap r h = elim (Bool-cases (leb cap (r + 1))) [
  | inl last ↦ let round : r + 1 ≡ cap = omega (tests, last) in rw (last, round, mod_self cap) refl
  | inr inside ↦ rw (inside, mod-eq_of_lt {n = r + 1} {m = cap} (below inside)) refl
]
  where
    below : leb cap (r + 1) ≡ false → r + 1 < cap
    below inside = ground arith

advance-mod : (cap k : ℕ) → 0 < cap → advance cap (k % cap) ≡ (k + 1) % cap
advance-mod cap k h = advance_of_lt cap (k % cap) (mod-lt k h) ∙ mod-add-mod k cap 1

module _ (junk : Netpack) where
  pub expand_loop-copy_ring :
      (n i head cap : ℕ) (old new : List Netpack)
      → 0 < cap
      → expand_loop junk n i head cap old new ≡ copy_ring junk n i ((head + i) % cap) cap old new
  unfolding expand_loop copy_ring
  expand_loop-copy_ring zero i head cap old new h = refl
  expand_loop-copy_ring (suc n) i head cap old new h =
      expand_loop-copy_ring n (i + 1) head cap old (set new i (get_or old ((head + i) % cap) junk))
        h
      ∙ ap
          (λ next.
            copy_ring junk n (i + 1) next cap old (set new i (get_or old ((head + i) % cap) junk)))
          (ap (λ k. k % cap) (omega arith) ∙ sym (advance-mod cap (head + i) h))
