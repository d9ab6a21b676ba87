-- ===== src/Gosproto/Packed.antt =====
-- `EncodePacked` and `DecodePacked` of gosproto/sproto.go: the message codec behind the packing.
pub mod RoundTrip
use cellorigin.Base.{ℕ, List, Outcome, ok, ◌>>=◌}
use cellorigin.Gosproto.Error.{Error}
use cellorigin.Gosproto.Types.{SprotoType, Values}
use cellorigin.Gosproto.Pack.{pack, unpack_bytes}
use cellorigin.Gosproto.Encode.{Arg, encode_sproto}
use cellorigin.Gosproto.Decode.{decode_sproto}

module _ (types : ℕ → SprotoType) (get_type : ℕ → Outcome Error SprotoType) where
  pub encode_packed : Arg → Outcome Error (List ℕ)
  encode_packed sp = do unpacked ← encode_sproto get_type types sp; pack unpacked

  -- The struct that `sp` points to afterwards.
  pub decode_packed : List ℕ → Arg → Outcome Error Values
  decode_packed bs sp = do
    unpacked ← unpack_bytes bs
    (used, vs) ← decode_sproto types get_type unpacked sp
    ok vs
