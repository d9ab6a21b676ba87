-- ===== src/Gosproto/Packed/RoundTrip.antt =====
-- The two layers of gosproto together: the zeros that `Pack` adds behind a message are not read.
use cellorigin.Base.{ℕ, ◌≡◌, sym, ap, ◌∙◌, Outcome, ok, ◌>>=◌}
use cellorigin.Gosproto.Error.{Error}
use cellorigin.Gosproto.Types.{SprotoType, Values}
use cellorigin.Gosproto.Pack.{pack, unpack_bytes}
use cellorigin.Gosproto.Pack.Whole.{pad8, pack-Packed, unpack-pack}
use cellorigin.Gosproto.Encode.{pointer}
use cellorigin.Gosproto.Decode.{decode_sproto}
use cellorigin.Gosproto.RoundTrip.{IsWellFormed, AreSent}
use cellorigin.Gosproto.RoundTrip.Nested.{decode_sproto-encode_sproto_bytes}
use cellorigin.Gosproto.Packed.{encode_packed, decode_packed}

module _ (types : ℕ → SprotoType) (wf : (t : ℕ) → IsWellFormed (types t)) where
  -- For a value that the coders of its type give back, where the types are well formed, `EncodePacked`
  -- gives bytes, and `DecodePacked` of them gives the same value, into whatever struct it decodes.
  pub decode_packed-encode_packed :
      (get_type : ℕ → Outcome Error SprotoType) (t : ℕ) (vs into : Values)
      → get_type t ≡ ok (types t)
      → AreSent types (types t).fields vs
      → (encode_packed types get_type (pointer t vs) >>= λ bs.
          decode_packed types get_type bs (pointer t into))
        ≡ ok vs
  unfolding encode_packed decode_packed
  decode_packed-encode_packed get_type t vs into g a =
      let (bs, e, b, d) = decode_sproto-encode_sproto_bytes types wf get_type t vs into g a in
      let (p, f, _) = pack-Packed bs b in
      let u : unpack_bytes p ≡ ok (pad8 bs) =
        ap (λ o. o >>= unpack_bytes) (sym f) ∙ unpack-pack bs b in
      ap (λ o. (o >>= pack) >>= λ bs. decode_packed types get_type bs (pointer t into)) e
      ∙ (ap (λ o. o >>= λ bs. decode_packed types get_type bs (pointer t into)) f
          ∙ (ap
                (λ o. o >>= λ bs.
                  decode_sproto types get_type bs (pointer t into) >>= λ (used, vs). ok vs)
                u
              ∙ ap (λ o. o >>= λ (used, vs). ok vs) (d _)))
