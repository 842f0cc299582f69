-- ===== src/Netpack/Hash/Lookup.antt =====
-- The hash table as a map from a connection to the frame of it that is not complete.
use skynet_server.Common.{
  ℕ, ◌≡◌, ◌≢◌, refl, inl, inr, Option, none, some, List, [], ◌∷◌, arith, ap, sym, ◌∙◌, Bool-cases,
  ◌==◌, if◌then◌else◌, ==_iff,
}
use skynet_server.Netpack.Types.{Uncomplete, Queue}
use skynet_server.Netpack.Hash.{hash_fd, find_in_chain, set_chain, find_uncomplete, put_uncomplete}

-- The first node of a chain that is the connection's.
abbrev pub first_of : ℕ → List Uncomplete → Option Uncomplete
first_of fd [] = none
first_of fd (uc ∷ chain) =
    let later = first_of fd chain in if uc.pack.id == fd then some uc else later

-- No two nodes of a chain are of one connection.
abbrev pub Unique : List Uncomplete → Type 0
Unique [] = Unit
Unique (uc ∷ chain) = (first_of uc.pack.id chain ≡ none) × Unique chain

abbrev pub IsFiled : Queue → Type 0
IsFiled q = (h : ℕ) → Unique (q.hash h)

-- What waits for a connection.
abbrev pub waiting : Queue → ℕ → Option Uncomplete
waiting q fd = first_of fd (q.hash (hash_fd fd))

-- The two ways that the search in a chain ends.
data ChainView (fd : ℕ) (chain : List Uncomplete) : Type 0 where
  missing : find_in_chain fd chain ≡ none → first_of fd chain ≡ none → ChainView fd chain
  found :
      (uc : Uncomplete) (rest : List Uncomplete)
      → find_in_chain fd chain ≡ some (uc, rest)
      → first_of fd chain ≡ some uc
      → Unique rest
      → uc.pack.id ≡ fd
      → first_of fd rest ≡ none
      → ((other : ℕ) → other ≢ fd → first_of other rest ≡ first_of other chain)
      → ChainView fd chain

first_of-same :
    (fd : ℕ) (uc : Uncomplete) (chain : List Uncomplete)
    → uc.pack.id ≡ fd
    → first_of fd (uc ∷ chain) ≡ some uc
first_of-same fd uc chain e = rw ((==_iff uc.pack.id fd).1 e) refl

first_of-other :
    (fd : ℕ) (uc : Uncomplete) (chain : List Uncomplete)
    → uc.pack.id ≢ fd
    → first_of fd (uc ∷ chain) ≡ first_of fd chain
first_of-other fd uc chain ne = ground arith

find_in_chain-View : (fd : ℕ) (chain : List Uncomplete) → Unique chain → ChainView fd chain
unfolding find_in_chain
find_in_chain-View fd [] u = missing refl refl
find_in_chain-View fd (uc ∷ chain) u = elim (Bool-cases (uc.pack.id == fd)) [
  | inl same ↦
      let here : uc.pack.id ≡ fd = (==_iff uc.pack.id fd).0 same in
      found uc chain (rw same refl) (rw same refl) u.1 here
        (ap (λ d. first_of d chain) (sym here) ∙ u.0)
        (λ other ne. sym (first_of-other other uc chain (λ e. ne (sym e ∙ here))))
  | inr differ ↦
      let away : uc.pack.id ≢ fd = ground arith in
      elim (find_in_chain-View fd chain u.1) [
        | missing e f ↦ missing (rw (differ, e) refl) (rw (differ, f) refl)
        | found x rest e f v i g h ↦
            found x (uc ∷ rest) (rw (differ, e) refl) (rw (differ, f) refl)
              (h uc.pack.id away ∙ u.0, v) i (rw (differ, g) refl)
              (λ other ne. rw (h other ne) refl)
      ]
]

-- The chains of a table in which one has been replaced.
set_chain-IsFiled :
    (h : ℕ) (chain : List Uncomplete) (q : Queue)
    → Unique chain
    → IsFiled q
    → IsFiled (set_chain h chain q)
set_chain-IsFiled h chain q u filed k = elim (Bool-cases (k == h)) [
  | inl same ↦ rw same u
  | inr differ ↦ rw differ (filed k)
]

-- `first_of` for a connection whose chain was replaced, or may have been.
waiting-set_chain :
    (h : ℕ) (chain : List Uncomplete) (q : Queue) (fd : ℕ)
    → (hash_fd fd ≡ h → first_of fd chain ≡ first_of fd (q.hash h))
    → waiting (set_chain h chain q) fd ≡ waiting q fd
waiting-set_chain h chain q fd same_chain = elim (Bool-cases (hash_fd fd == h)) [
  | inl same ↦
      let e : hash_fd fd ≡ h = (==_iff (hash_fd fd) h).0 same in
      rw same (same_chain e ∙ ap (λ k. first_of fd (q.hash k)) (sym e))
  | inr differ ↦ rw differ refl
]

waiting-set_own :
    (fd : ℕ) (chain : List Uncomplete) (q : Queue)
    → waiting (set_chain (hash_fd fd) chain q) fd ≡ first_of fd chain
waiting-set_own fd chain q = rw ((==_iff (hash_fd fd) (hash_fd fd)).1 refl) refl

-- What `find_uncomplete` does to the table.
pub data View (q : Queue) (fd : ℕ) : Type 0 where
  missing : find_uncomplete (some q) fd ≡ none → waiting q fd ≡ none → View q fd
  found :
      (uc : Uncomplete) (r : Queue)
      → find_uncomplete (some q) fd ≡ some (uc, r)
      → waiting q fd ≡ some uc
      → uc.pack.id ≡ fd
      → waiting r fd ≡ none
      → ((other : ℕ) → other ≢ fd → waiting r other ≡ waiting q other)
      → IsFiled r
      → r ≡ record q { hash = r.hash }
      → View q fd

-- If no chain has two nodes of one connection, `find_uncomplete` finds what waits for the connection
-- and takes it out of the table, and only that; with nothing there it finds nothing.
pub find_uncomplete-View : (q : Queue) (fd : ℕ) → IsFiled q → View q fd
unfolding find_uncomplete
find_uncomplete-View q fd filed =
    elim (find_in_chain-View fd (q.hash (hash_fd fd)) (filed (hash_fd fd))) [
      | missing e f ↦ missing (rw (e, find_uncomplete) refl) f
      | found uc rest e f v i g h ↦
          found uc (set_chain (hash_fd fd) rest q) (rw (e, find_uncomplete) refl) f i
            (waiting-set_own fd rest q ∙ g)
            (λ other ne. waiting-set_chain (hash_fd fd) rest q other (λ _. h other ne))
            (set_chain-IsFiled (hash_fd fd) rest q v filed) refl
    ]

-- A node that is put in the table for a connection with none is what waits for it from then on, and
-- nothing else changes.
pub put_uncomplete_lem :
    (q : Queue) (fd : ℕ) (uc : Uncomplete)
    → IsFiled q
    → waiting q fd ≡ none
    → uc.pack.id ≡ fd
    → IsFiled (put_uncomplete fd uc q)
      × (waiting (put_uncomplete fd uc q) fd ≡ some uc)
      × ((other : ℕ) → other ≢ fd → waiting (put_uncomplete fd uc q) other ≡ waiting q other)
      × (put_uncomplete fd uc q ≡ record q { hash = (put_uncomplete fd uc q).hash })
unfolding put_uncomplete
put_uncomplete_lem q fd uc filed free e = (
  set_chain-IsFiled (hash_fd fd) chain q
      (ap (λ d. first_of d (q.hash (hash_fd fd))) e ∙ free, filed (hash_fd fd)) filed,
  waiting-set_own fd chain q ∙ first_of-same fd uc (q.hash (hash_fd fd)) e,
  (λ other ne.
      waiting-set_chain (hash_fd fd) chain q other
        (λ _. first_of-other other uc (q.hash (hash_fd fd)) (λ f. ne (sym f ∙ e)))),
  refl,
)
  where
    chain : List Uncomplete
    chain = uc ∷ q.hash (hash_fd fd)
