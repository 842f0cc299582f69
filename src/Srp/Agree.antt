-- ===== src/Srp/Agree.antt =====
-- The exchange as a whole: a verifier is made once, then client and server each make a key pair and a
-- session key from what they are sent.
use skynet_server.Common.{
  ℕ, ◌≡◌, refl, sym, ap, ◌∙◌, inl, inr, Option, none, some, List, [], ◌∷◌, length, ltb,
  if◌then◌else◌, Bool-cases,
}
use skynet_server.Common.Bytes.{Bytes}
use skynet_server.Srp.{
  Openssl, Result, pushed, lua_error, assertion, forever, push_bn, with_key, push_verifier,
  lcreate_verifier, push_client_key, lcreate_client_key, push_session_key,
  lcreate_server_session_key, client_session_key, lcreate_client_session_key,
}
use skynet_server.Srp.Laws.{Group, IsSrp, server_key-client_key}

module _ (openssl : Openssl) where
  -- What a string that has been pushed tells: the number that it is, and the strings behind it.
  push_bn-pushed :
      (bn : ℕ) (rest : Result) (s : Bytes) (strings : List Bytes)
      → push_bn openssl bn rest ≡ pushed (s ∷ strings)
      → (s ≡ openssl.bn_to_bin bn)
        × (rest ≡ pushed strings)
        × (push_bn openssl bn (pushed []) ≡ pushed (s ∷ []))
  push_bn-pushed bn (pushed texts) s strings e =
      elim (Bool-cases (ltb (length (openssl.bn_to_bin bn)) 1024)) [
        | inl fits ↦
            let both : pushed (openssl.bn_to_bin bn ∷ texts) ≡ pushed (s ∷ strings) =
              ap (λ b. if b then pushed (openssl.bn_to_bin bn ∷ texts) else assertion) (sym fits)
              ∙ e in
            (
              cc,
              cc,
              ap (λ b. if b then pushed (openssl.bn_to_bin bn ∷ []) else assertion) fits ∙ cc,
            )
        | inr long ↦
            let never : assertion ≡ pushed (s ∷ strings) =
              ap (λ b. if b then pushed (openssl.bn_to_bin bn ∷ texts) else assertion) (sym long)
              ∙ e in
            absurd cc
      ]
  push_bn-pushed bn lua_error s strings e = absurd (cc)
  push_bn-pushed bn assertion s strings e = absurd (cc)
  push_bn-pushed bn forever s strings e = absurd (cc)

  -- A key that has been used was found.
  with_key-pushed :
      (key : Option ℕ) (rest : ℕ → Result) (strings : List Bytes)
      → with_key key rest ≡ pushed strings
      → (k : ℕ) × (rest k ≡ pushed strings)
  with_key-pushed none rest strings e = absurd (cc)
  with_key-pushed (some k) rest strings e = (k, e)

  verifier-pushed :
      (made : Option (ℕ × ℕ)) (s v : Bytes)
      → push_verifier openssl made ≡ pushed (s ∷ v ∷ [])
      → (sn : ℕ) × (vn : ℕ) × (made ≡ some (sn, vn))
        × (s ≡ openssl.bn_to_bin sn)
        × (v ≡ openssl.bn_to_bin vn)
  verifier-pushed none s v e = absurd (cc)
  verifier-pushed (some (sn, vn)) s v e =
      let first = push_bn-pushed sn (push_bn openssl vn (pushed [])) s (v ∷ []) e in
      let second = push_bn-pushed vn (pushed []) v [] first.1 in (sn, vn, refl, first.0, second.0)

  client-pushed :
      (random : List Bytes) (a A : Bytes)
      → lcreate_client_key openssl random ≡ pushed (a ∷ A ∷ [])
      → (an : ℕ) × (a ≡ openssl.bn_to_bin an) × (A ≡ openssl.bn_to_bin (openssl.calc_a an))
  unfolding lcreate_client_key
  client-pushed random a A e =
      let found = with_key-pushed _ (push_client_key openssl) (a ∷ A ∷ []) e in
      let first =
        push_bn-pushed found.0 (push_bn openssl (openssl.calc_a found.0) (pushed [])) a (A ∷ [])
          found.1 in
      let second = push_bn-pushed (openssl.calc_a found.0) (pushed []) A [] first.1 in
      (found.0, first.0, second.0)

  server-pushed :
      (v A : Bytes) (random : List Bytes) (K b B : Bytes)
      → lcreate_server_session_key openssl (some v) (some A) random ≡ pushed (K ∷ b ∷ B ∷ [])
      → (bn : ℕ) × (B ≡ openssl.bn_to_bin (openssl.calc_b bn (openssl.bin_to_bn v)))
        × (push_bn openssl
              (openssl.server_key
                (openssl.bin_to_bn A)
                (openssl.bin_to_bn v)
                (openssl.calc_u (openssl.bin_to_bn A) (openssl.calc_b bn (openssl.bin_to_bn v)))
                bn)
              (pushed [])
            ≡ pushed (K ∷ []))
  unfolding lcreate_server_session_key
  server-pushed v A random K b B e =
      let found =
        with_key-pushed _ (push_session_key openssl (openssl.bin_to_bn v) (openssl.bin_to_bn A))
          (K ∷ b ∷ B ∷ []) e in
      let sent : ℕ = openssl.calc_b found.0 (openssl.bin_to_bn v) in
      let first =
        push_bn-pushed
          (openssl.server_key (openssl.bin_to_bn A) (openssl.bin_to_bn v)
            (openssl.calc_u (openssl.bin_to_bn A) sent) found.0)
          (push_bn openssl found.0 (push_bn openssl sent (pushed []))) K (b ∷ B ∷ []) found.1 in
      let second = push_bn-pushed found.0 (push_bn openssl sent (pushed [])) b (B ∷ []) first.1 in
      let third = push_bn-pushed sent (pushed []) B [] second.1 in (found.0, third.0, first.2)

-- If OpenSSL computes as SRP-6a says: for a verifier that `lcreate_verifier` makes of a name and a
-- password, and the key pairs that client and server make, whatever the random bytes, the client that
-- is given the same name and password, the salt, its pair and the public key of the server ends with
-- the session key of the server, byte for byte.
pub lcreate_client_session_key-agrees :
    (openssl : Openssl) (group : Group)
    → IsSrp openssl group
    → (I p s v a A K b B : Bytes) (random random' : List Bytes)
    → lcreate_verifier openssl (some I) (some p) ≡ pushed (s ∷ v ∷ [])
    → lcreate_client_key openssl random ≡ pushed (a ∷ A ∷ [])
    → lcreate_server_session_key openssl (some v) (some A) random' ≡ pushed (K ∷ b ∷ B ∷ [])
    → lcreate_client_session_key openssl (some I) (some p) (some s) (some a) (some A) (some B)
      ≡ pushed (K ∷ [])
unfolding lcreate_verifier lcreate_client_session_key
lcreate_client_session_key-agrees openssl group srp I p s v a A K b B random random' made client
      server =
    ap (λ k. push_bn openssl k (pushed [])) (sym same) ∙ session.2
  where
    verifier :
        (sn : ℕ) × (vn : ℕ) × (openssl.create_verifier I p ≡ some (sn, vn))
        × (s ≡ openssl.bn_to_bin sn)
        × (v ≡ openssl.bn_to_bin vn)
    verifier = verifier-pushed openssl (openssl.create_verifier I p) s v made

    pair : (an : ℕ) × (a ≡ openssl.bn_to_bin an) × (A ≡ openssl.bn_to_bin (openssl.calc_a an))
    pair = client-pushed openssl random a A client

    session :
        (bn : ℕ) × (B ≡ openssl.bn_to_bin (openssl.calc_b bn (openssl.bin_to_bn v)))
        × (push_bn openssl
              (openssl.server_key
                (openssl.bin_to_bn A)
                (openssl.bin_to_bn v)
                (openssl.calc_u (openssl.bin_to_bn A) (openssl.calc_b bn (openssl.bin_to_bn v)))
                bn)
              (pushed [])
            ≡ pushed (K ∷ []))
    session = server-pushed openssl v A random' K b B server

    u : ℕ
    u = openssl.calc_u (openssl.calc_a pair.0) (openssl.calc_b session.0 verifier.1)

    x : ℕ
    x = openssl.calc_x verifier.0 I p

    read : (n : ℕ) (text : Bytes) → text ≡ openssl.bn_to_bin n → openssl.bin_to_bn text ≡ n
    read n text e = ap openssl.bin_to_bn e ∙ srp.bin_to_bn_lem n

    same :
        openssl.server_key
          (openssl.bin_to_bn A)
          (openssl.bin_to_bn v)
          (openssl.calc_u (openssl.bin_to_bn A) (openssl.calc_b session.0 (openssl.bin_to_bn v)))
          session.0
        ≡ client_session_key openssl I p
            (openssl.bin_to_bn s)
            (openssl.bin_to_bn a)
            (openssl.bin_to_bn A)
            (openssl.bin_to_bn B)
    same =
        let eA = read (openssl.calc_a pair.0) A pair.2 in
        let ea = read pair.0 a pair.1 in
        let es = read verifier.0 s verifier.3 in
        let ev = read verifier.1 v verifier.4 in
        let eB = read (openssl.calc_b session.0 (openssl.bin_to_bn v)) B session.1 in
        let key =
          server_key-client_key openssl group srp pair.0 session.0 x u verifier.1
            (srp.create_verifier_lem I p verifier.0 verifier.1 verifier.2) in
        cc (eA, ea, es, ev, eB, key)
