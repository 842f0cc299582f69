-- ===== src/Package/Queue/Grow.antt =====
-- The copy that doubles a queue: its first cells are the old ring, turned to start at 0.
use skynet_server.Common.{
  ℕ, zero, suc, ◌+◌, ◌≤◌, ◌<◌, ◌≡◌, refl, List, ◌∷◌, arith, length, get_or, set, length-set,
}
use skynet_server.Common.Ring.{advance, window, get_or-set_self, get_or-set_ne, window-advance}
use mathlib.Core.Path.{ap₂, ◌∙◌}
use skynet_server.Package.Queue.{copy_ring}

module _ {A : Type 0} (junk : A) where
  pub length-copy_ring :
      (n i h cap : ℕ) (buf tmp : List A) → length (copy_ring junk n i h cap buf tmp) ≡ length tmp
  unfolding copy_ring
  length-copy_ring zero i h cap buf tmp = refl
  length-copy_ring (suc n) i h cap buf tmp =
      length-copy_ring n (i + 1) (advance cap h) cap buf (set tmp i (get_or buf h junk))
      ∙ length-set tmp i (get_or buf h junk)

  -- The cells before the loop's index stay.
  get_or-copy_ring :
      (n i h cap j : ℕ) (buf tmp : List A)
      → j < i
      → get_or (copy_ring junk n i h cap buf tmp) j junk ≡ get_or tmp j junk
  unfolding copy_ring
  get_or-copy_ring zero i h cap j buf tmp lt = refl
  get_or-copy_ring (suc n) i h cap j buf tmp lt =
      get_or-copy_ring n (i + 1) (advance cap h) cap j buf (set tmp i (get_or buf h junk))
        (omega arith)
      ∙ get_or-set_ne junk tmp i j (get_or buf h junk) (omega arith)

  -- Cells `i` to `i + m` of the copy are the first `m` cells of the ring from `h` on.
  pub window-copy_ring :
      (m n i h cap big : ℕ) (buf tmp : List A)
      → m ≤ n
      → i + n ≤ big
      → i + n ≤ length tmp
      → window junk (copy_ring junk n i h cap buf tmp) big i m ≡ window junk buf cap h m
  unfolding copy_ring
  window-copy_ring zero n i h cap big buf tmp part fits room = refl
  window-copy_ring (suc m) zero i h cap big buf tmp part fits room = absurd (omega arith)
  window-copy_ring (suc m) (suc n) i h cap big buf tmp part fits room =
      ap₂ ◌∷◌
        (get_or-copy_ring n (i + 1) (advance cap h) cap i buf tmp' (omega arith)
          ∙ get_or-set_self junk tmp i (get_or buf h junk) (omega arith))
        (window-advance junk (copy_ring junk n (i + 1) (advance cap h) cap buf tmp') big i m
            (omega arith)
          ∙ window-copy_ring m n (i + 1) (advance cap h) cap big buf tmp' (omega arith)
              (omega arith) (omega (arith, length-set tmp i (get_or buf h junk))))
    where
      tmp' : List A
      tmp' = set tmp i (get_or buf h junk)
