-- ===== src/Package/Receive/Fits.antt =====
-- Where the stream of a package stands, and what receiving a message must have made of it.
use skynet_server.Common.{
  ℕ, ◌-◌, ◌≤◌, ◌≡◌, ◌≢◌, List, [], ◌++◌, map, length, take, ◌==◌, if◌then◌else◌,
}
use skynet_server.Common.Bytes.{Bytes}
use skynet_server.Common.Int.{ℤ, pos, negsuc}
use skynet_server.Package.Queue.Refine.{IsValid, contents}
use skynet_server.Package.Types.{Package, Response, Junk, Run, ok}
use skynet_server.Package.Decoder.{Decoder, idle, half, body, decode}

abbrev pub payload : Response → Bytes
payload r = take r.sz r.msg

-- How the fields of a package fit together, by the sign of `uncomplete_sz`.
abbrev pub BodyFits : ℤ → (header_sz : ℕ) → Response → Type 0
BodyFits (pos k) h r = (h ≡ 0) × (k ≤ r.sz) × (length r.msg ≡ r.sz)
BodyFits (negsuc n) h r = (h ≤ 1) × (n ≡ 0)

abbrev pub decoder_of : ℤ → (header_sz header_0 : ℕ) → Response → Decoder
decoder_of (pos k) h a r = body k (take (r.sz - k) r.msg)
decoder_of (negsuc n) h a r = if h == 0 then idle else half a

-- Where the stream stands.
abbrev pub decoder : Package → Decoder
decoder P = decoder_of P.uncomplete_sz P.header_sz P.header_0 P.uncomplete

pub record Fits (P : Package) : Type 0 where
  pub valid : IsValid P.response
  pub body_fits : BodyFits P.uncomplete_sz P.header_sz P.uncomplete

module _ (J : Junk) where
  -- The packages that wait to be asked for, oldest first.
  abbrev pub ready : Package → List Bytes
  ready P = map payload (contents J.response P.response)

  -- What receiving `msg` must have made of `P`.
  pub record Received (P : Package) (msg : Bytes) (P' : Package) : Type 0 where
    pub decoded : decoder P' ≡ (decode (decoder P) msg).0
    pub queued : ready P' ≡ ready P ++ (decode (decoder P) msg).1
    pub fits : Fits P'
    pub settled : P'.uncomplete_sz ≢ pos 0
    pub rest : P' ≡ record P {
      header_sz = P'.header_sz;
      header_0 = P'.header_0;
      header_1 = P'.header_1;
      uncomplete_sz = P'.uncomplete_sz;
      uncomplete = P'.uncomplete;
      response = P'.response;
    }

  abbrev pub Ends : Package → Bytes → Run → Type 0
  Ends P msg r = (P' : Package) × (r ≡ ok P' []) × Received P msg P'
