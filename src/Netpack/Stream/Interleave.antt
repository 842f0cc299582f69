-- ===== src/Netpack/Stream/Interleave.antt =====
-- Many connections at once: the pieces of their streams come in any order.
use skynet_server.Common.{
  ℕ, ◌<◌, ◌≡◌, ◌⊎◌, refl, sym, ap, ◌∙◌, inl, inr, true, false, Option, List, [], ◌∷◌, ◌++◌, map,
  append_assoc, append-nil, length, ◌==◌, ==_iff, if◌then◌else◌, Bool-cases,
}
use mathlib.Core.List.{map-append}
use mathlib.Core.Path.{subst}
use skynet_server.Common.Bytes.{Bytes}
use skynet_server.Netpack.Types.{Netpack, Uncomplete, Queue, Junk, Message, done}
use skynet_server.Netpack.Hash.Lookup.{waiting}
use skynet_server.Netpack.Stream.{Sent, AllSent, stream, delivered, Partly}
use skynet_server.Netpack.Stream.Save.{At, between, partly}
use skynet_server.Netpack.Stream.Cut.{Cut, stream-Cut}
use skynet_server.Netpack.Stream.Feed.{joined, part_whole, stream-nothing}
use skynet_server.Netpack.Stream.Reader.{data_message, keep, Reads, at_end, piece_read}
use skynet_server.Netpack.Stream.Life.{attend, Keeps, lfilter-Reads}

abbrev pub messages_of : List (ℕ × Bytes) → List Message
messages_of [] = []
messages_of ((fd, piece) ∷ events) = data_message fd piece ∷ messages_of events

-- What arrives of a connection, and what is handed over of it.
abbrev pub pieces_of : ℕ → List (ℕ × Bytes) → List Bytes
pieces_of fd [] = []
pieces_of fd ((id, piece) ∷ events) =
    let later = pieces_of fd events in if id == fd then piece ∷ later else later

abbrev pub frames_of : ℕ → List Netpack → List Netpack
frames_of fd [] = []
frames_of fd (x ∷ frames) =
    let later = frames_of fd frames in if x.id == fd then x ∷ later else later

abbrev pub AllPieces : List (ℕ × Bytes) → Type 0
AllPieces [] = Unit
AllPieces ((id, piece) ∷ events) = (0 < length piece) × AllPieces events

-- What is kept of a connection and what is to arrive of it are the frames `ss`.
pub record Sends (fd : ℕ) (kept : Bytes) (events : List (ℕ × Bytes)) (ss : List Sent) : Type 0 where
  pub all : AllSent ss
  pub cut : kept ++ joined (pieces_of fd events) ≡ stream ss

same_id : (fd : ℕ) → (fd == fd) ≡ true
same_id fd = (==_iff fd fd).1 refl

frames_of-append :
    (fd : ℕ) (a b : List Netpack) → frames_of fd (a ++ b) ≡ frames_of fd a ++ frames_of fd b
frames_of-append fd [] b = refl
frames_of-append fd (x ∷ a) b = elim (Bool-cases (x.id == fd)) [
  | inl here ↦ rw here (ap (λ t. x ∷ t) (frames_of-append fd a b))
  | inr elsewhere ↦ rw elsewhere (frames_of-append fd a b)
]

frames_of-own :
    (fd : ℕ) (ss : List Sent) → frames_of fd (map (delivered fd) ss) ≡ map (delivered fd) ss
frames_of-own fd [] = refl
frames_of-own fd (s ∷ ss) = rw (same_id fd) (ap (λ t. delivered fd s ∷ t) (frames_of-own fd ss))

frames_of-other :
    (fd other : ℕ) (ss : List Sent)
    → (fd == other) ≡ false
    → frames_of other (map (delivered fd) ss) ≡ []
frames_of-other fd other [] e = refl
frames_of-other fd other (s ∷ ss) e = rw e (frames_of-other fd other ss e)

-- The frames that are still to come of each connection, when `behind` is left of one.
abbrev left_of : ℕ → List Sent → (ℕ → List Sent) → ℕ → List Sent
left_of fd behind ss x = if fd == x then behind else ss x

joined_frames :
    (fd : ℕ) (before behind : List Sent) (ss : ℕ → List Sent) (frames : List Netpack)
    → ss fd ≡ before ++ behind
    → ((x : ℕ) → frames_of x frames ≡ map (delivered x) (left_of fd behind ss x))
    → (x : ℕ) → frames_of x (map (delivered fd) before ++ frames) ≡ map (delivered x) (ss x)
joined_frames fd before behind ss frames split later x = elim (Bool-cases (fd == x)) [
  | inl same ↦
      subst
        (λ (y : ℕ).
          frames_of y frames ≡ map (delivered y) (left_of fd behind ss y)
          → frames_of y (map (delivered fd) before ++ frames) ≡ map (delivered y) (ss y))
        ((==_iff fd x).0 same)
        (λ e.
          frames_of-append fd (map (delivered fd) before) frames
          ∙ ap (λ t. t ++ frames_of fd frames) (frames_of-own fd before)
          ∙ ap (λ t. map (delivered fd) before ++ t) e
          ∙ ap (λ b. map (delivered fd) before ++ map (delivered fd) (if b then behind else ss fd))
              (same_id fd)
          ∙ sym (map-append (delivered fd) before behind)
          ∙ ap (map (delivered fd)) (sym split))
        (later x)
  | inr differ ↦
      frames_of-append x (map (delivered fd) before) frames
      ∙ ap (λ t. t ++ frames_of x frames) (frames_of-other fd x before differ)
      ∙ later x
      ∙ ap (λ b. map (delivered x) (if b then behind else ss x)) differ
]

-- What the reader that keeps only bytes gives: of each connection its frames, and in the end it keeps
-- no byte.
record Read (events : List (ℕ × Bytes)) (kept : ℕ → Bytes) (ss : ℕ → List Sent) : Type 0 where
  frames : List Netpack
  last : ℕ → Bytes
  reads : Reads kept (messages_of events) frames last
  own : (fd : ℕ) → frames_of fd frames ≡ map (delivered fd) (ss fd)
  nothing_left : (fd : ℕ) → last fd ≡ []

-- When nothing more arrives, no frame is to come and nothing is kept.
settled :
    (fd : ℕ) (kept : Bytes) (ss : List Sent)
    → (kept ≡ []) ⊎ Partly kept
    → Sends fd kept [] ss
    → (ss ≡ []) × (kept ≡ [])
settled fd kept ss (inl e) s = (stream-nothing ss (sym s.cut ∙ append-nil kept ∙ e), e)
settled fd kept ss (inr p) s =
    let none_sent : ss ≡ [] = part_whole ss kept p s.all (sym (append-nil kept) ∙ s.cut) in
    (none_sent, sym (append-nil kept) ∙ s.cut ∙ ap stream none_sent)

module _ (fd : ℕ) (piece : Bytes) (events : List (ℕ × Bytes)) (kept : ℕ → Bytes)
    (ss : ℕ → List Sent) (sends : (x : ℕ) → Sends x (kept x) ((fd, piece) ∷ events) (ss x)) where
  own_cut : (kept fd ++ piece) ++ joined (pieces_of fd events) ≡ stream (ss fd)
  own_cut =
      append_assoc (kept fd) piece (joined (pieces_of fd events))
      ∙ ap (λ b. kept fd ++ joined (if b then piece ∷ pieces_of fd events else pieces_of fd events))
          (sym (same_id fd))
      ∙ (sends fd).cut

  c : Cut (ss fd) (kept fd ++ piece) (joined (pieces_of fd events))
  c = stream-Cut (ss fd) (kept fd ++ piece) (joined (pieces_of fd events)) (sends fd).all own_cut

  all-Sends : (x : ℕ) → Sends x (keep fd c.tail kept x) events (left_of fd c.behind ss x)
  all-Sends x = elim (Bool-cases (fd == x)) [
    | inl same ↦
        subst (λ b. Sends x (if b then c.tail else kept x) events (if b then c.behind else ss x))
          (sym same)
          (subst (λ y. Sends y c.tail events c.behind) ((==_iff fd x).0 same)
            (record { all = c.behind_sent; cut = c.cut_rest }))
    | inr differ ↦
        subst (λ b. Sends x (if b then c.tail else kept x) events (if b then c.behind else ss x))
          (sym differ)
          (record {
            all = (sends x).all;
            cut =
                ap
                  (λ b.
                    kept x ++ joined (if b then piece ∷ pieces_of x events else pieces_of x events))
                  (sym differ)
                ∙ (sends x).cut;
          })
  ]

  all_end :
      ((x : ℕ) → (kept x ≡ []) ⊎ Partly (kept x))
      → (x : ℕ) → (keep fd c.tail kept x ≡ []) ⊎ Partly (keep fd c.tail kept x)
  all_end ends x = elim (Bool-cases (fd == x)) [
    | inl same ↦
        subst (λ b. ((if b then c.tail else kept x) ≡ []) ⊎ Partly (if b then c.tail else kept x))
          (sym same) c.ends
    | inr differ ↦
        subst (λ b. ((if b then c.tail else kept x) ≡ []) ⊎ Partly (if b then c.tail else kept x))
          (sym differ) (ends x)
  ]

  Read-cons :
      0 < length piece
      → Read events (keep fd c.tail kept) (left_of fd c.behind ss)
      → Read ((fd, piece) ∷ events) kept ss
  Read-cons some_bytes later = record {
    frames = map (delivered fd) c.before ++ later.frames;
    last = later.last;
    reads =
        piece_read kept fd piece c.before c.tail (messages_of events) later.frames later.last
          some_bytes c.before_sent c.ends c.cut_front later.reads;
    own = joined_frames fd c.before c.behind ss later.frames c.frames later.own;
    nothing_left = later.nothing_left;
  }

Read-events :
    (events : List (ℕ × Bytes)) (kept : ℕ → Bytes) (ss : ℕ → List Sent)
    → ((x : ℕ) → (kept x ≡ []) ⊎ Partly (kept x))
    → ((x : ℕ) → Sends x (kept x) events (ss x))
    → AllPieces events
    → Read events kept ss
Read-events [] kept ss ends sends nonempty = record {
  frames = [];
  last = kept;
  reads = at_end kept;
  own = λ x. ap (map (delivered x)) (sym (settled x (kept x) (ss x) (ends x) (sends x)).0);
  nothing_left = λ x. (settled x (kept x) (ss x) (ends x) (sends x)).1;
}
Read-events ((fd, piece) ∷ events) kept ss ends sends (some_bytes, more) =
    let cut = c fd piece events kept ss sends in
    Read-cons fd piece events kept ss sends some_bytes (
      Read-events events (keep fd cut.tail kept) (left_of fd cut.behind ss)
        (all_end fd piece events kept ss sends ends) (all-Sends fd piece events kept ss sends) more)

-- What is kept is part of a frame.
At-ends : (fd : ℕ) (kept : Bytes) (w : Option Uncomplete) → At fd kept w → (kept ≡ []) ⊎ Partly kept
At-ends fd kept w (between e v) = inl e
At-ends fd kept w (partly p uc s v) = inr p

module _ (J : Junk) where
  -- What reading the events must give: of each connection its frames, and nothing is kept of any.
  abbrev pub Serves : List (ℕ × Bytes) → Queue → (ℕ → List Sent) → Type 0
  Serves events q ss =
      (r : Queue) × (frames : List Netpack) × (attend J (messages_of events) q ≡ done (r, frames))
      × ((fd : ℕ) → frames_of fd frames ≡ map (delivered fd) (ss fd))
      × ((fd : ℕ) → At fd [] (waiting r fd))

  -- Pieces of the streams of any connections, none empty, that come in any order, from a sound queue in
  -- which no frame waits: if what is kept of each connection and its pieces make whole frames (final
  -- frames of data of at most 10240 bytes, masked or not), a reader that hands each piece to `lfilter`
  -- outside a handshake and calls `lpop` after it gets of each connection exactly the payloads of its
  -- frames, in their order, and in the end no byte of any connection is kept.
  pub lfilter-Serves :
      (events : List (ℕ × Bytes)) (q : Queue) (kept : ℕ → Bytes) (ss : ℕ → List Sent)
      → Keeps J kept q
      → ((fd : ℕ) → Sends fd (kept fd) events (ss fd))
      → AllPieces events
      → Serves events q ss
  lfilter-Serves events q kept ss k sends nonempty =
      let read =
        Read-events events kept ss (λ x. At-ends x (kept x) (waiting q x) (k.at x)) sends
          nonempty in
      let run = lfilter-Reads J kept (messages_of events) read.frames read.last q k read.reads in
      (
        run.0,
        read.frames,
        run.1,
        read.own,
        λ fd. subst (λ b. At fd b (waiting run.0 fd)) (read.nothing_left fd) (run.2.at fd),
      )
