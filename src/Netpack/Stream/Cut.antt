-- ===== src/Netpack/Stream/Cut.antt =====
-- The first bytes of a stream: whole frames, and then nothing or a part of one.
use skynet_server.Common.{
  ℕ, ◌≡◌, ◌⊎◌, inl, inr, refl, sym, ap, ◌∙◌, List, [], ◌∷◌, ◌++◌, append_assoc, append-nil, length,
  arith,
}
use skynet_server.Common.Bytes.{Bytes}
use skynet_server.Netpack.Stream.{
  Sent, IsSent, AllSent, header, bytes, stream, Partly, in_header, in_body,
}
use skynet_server.Netpack.Stream.Same.{append-cases}

-- `front` is cut off a stream of which `rest` is left.
pub record Cut (ss : List Sent) (front rest : Bytes) : Type 0 where
  pub before : List Sent
  pub behind : List Sent
  pub tail : Bytes
  pub frames : ss ≡ before ++ behind
  pub before_sent : AllSent before
  pub behind_sent : AllSent behind
  pub ends : (tail ≡ []) ⊎ Partly tail
  pub cut_front : front ≡ stream before ++ tail
  pub cut_rest : tail ++ rest ≡ stream behind

-- Less than a frame is a part of it.
part_of :
    (s : Sent) (front : Bytes) (b : ℕ) (bs : Bytes)
    → IsSent s
    → bytes s ≡ front ++ (b ∷ bs)
    → Partly front
part_of s front b bs i e = elim (append-cases (header s) s.body front (b ∷ bs) e) [
  | inl (v, f, g) ↦ in_body s v b bs i f g
  | inr ([], f, g) ↦
      in_body s [] b bs i (sym (append-nil front) ∙ sym f ∙ sym (append-nil (header s))) (sym g)
  | inr (c ∷ v, f, g) ↦ in_header s c v i f
]

pub stream-Cut :
    (ss : List Sent) (front rest : Bytes)
    → AllSent ss
    → front ++ rest ≡ stream ss
    → Cut ss front rest
stream-Cut [] [] rest all e = record {
  before = [];
  behind = [];
  tail = [];
  frames = refl;
  before_sent = tt;
  behind_sent = tt;
  ends = inl refl;
  cut_front = refl;
  cut_rest = e;
}
stream-Cut [] (x ∷ front) rest all e = absurd (omega (arith, ap length e))
stream-Cut (s ∷ ss) front rest all e = elim (append-cases front rest (bytes s) (stream ss) e) [
  | inl ([], f, g) ↦ record {
    before = s ∷ [];
    behind = ss;
    tail = [];
    frames = refl;
    before_sent = (all.0, tt);
    behind_sent = all.1;
    ends = inl refl;
    cut_front =
        sym (f ∙ append-nil front) ∙ sym (append-nil (bytes s)) ∙ sym (append-nil (bytes s ++ []));
    cut_rest = g;
  }
  | inl (b ∷ bs, f, g) ↦ record {
    before = [];
    behind = s ∷ ss;
    tail = front;
    frames = refl;
    before_sent = tt;
    behind_sent = all;
    ends = inr (part_of s front b bs all.0 f);
    cut_front = refl;
    cut_rest = e;
  }
  | inr (w, f, g) ↦
      let later = stream-Cut ss w rest all.1 (sym g) in
      record {
        before = s ∷ later.before;
        behind = later.behind;
        tail = later.tail;
        frames = ap (λ t. s ∷ t) later.frames;
        before_sent = (all.0, later.before_sent);
        behind_sent = later.behind_sent;
        ends = later.ends;
        cut_front =
            f
            ∙ ap (λ t. bytes s ++ t) later.cut_front
            ∙ sym (append_assoc (bytes s) (stream later.before) later.tail);
        cut_rest = later.cut_rest;
      }
]
