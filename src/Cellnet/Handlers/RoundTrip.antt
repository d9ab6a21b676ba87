-- ===== src/Cellnet/Handlers/RoundTrip.antt =====
-- A message that was encoded is decoded to itself at the other end, if its codec does that.
use cellorigin.Base.{arith, ℕ, ◌≡◌, refl, ◌∙◌, List, none, some, ok}
use cellorigin.Cellnet.Meta.{Registry, MessageMeta, Codec, message_meta_by_id, message_meta_by_type}
use cellorigin.Cellnet.Meta.Consistent.{IsConsistent}
use cellorigin.Cellnet.Handlers.{encode_message, encode_with, decode_message, decode_with}

module _ {Obj : Type 0} (g : Registry Obj) (type_of : Obj → ℕ) where
  module _ (meta : MessageMeta Obj) (c : Codec Obj) (f : meta.codec ≡ some c) where
    encode_with-codec :
        (m : Obj) (body : List ℕ)
        → c.encode m ≡ some (body, none)
        → encode_with g type_of meta m ≡ some (body, meta.id, none)
    unfolding encode_with
    encode_with-codec m body enc = ground arith

    decode_with-codec :
        (m : Obj) (body : List ℕ)
        → c.decode meta.type body ≡ ok m
        → decode_with g type_of meta body ≡ ok m
    unfolding decode_with
    decode_with-codec m body dec = ground arith

  module _ (meta : MessageMeta Obj) where
    encode_message-meta :
        (m : Obj)
        → message_meta_by_type (type_of m) g ≡ some meta
        → encode_message g type_of m ≡ encode_with g type_of meta m
    unfolding encode_message
    encode_message-meta m e = rw (e, encode_message) refl

    decode_message-meta :
        (id : ℕ) (body : List ℕ)
        → message_meta_by_id id g ≡ some meta
        → decode_message g type_of id body ≡ decode_with g type_of meta body
    unfolding decode_message
    decode_message-meta id body e = rw (e, decode_message) refl

  -- In consistent tables, a message whose type is registered with a codec that encodes it to
  -- `body`, and decodes `body` to the message again: `EncodeMessage` gives `body` and the id under
  -- which `DecodeMessage` gives the message.
  pub decode-encode :
      (m : Obj) (meta : MessageMeta Obj) (c : Codec Obj) (body : List ℕ)
      → IsConsistent g
      → message_meta_by_type (type_of m) g ≡ some meta
      → meta.codec ≡ some c
      → c.encode m ≡ some (body, none)
      → c.decode meta.type body ≡ ok m
      → (encode_message g type_of m ≡ some (body, meta.id, none))
        × (decode_message g type_of meta.id body ≡ ok m)
  unfolding message_meta_by_type message_meta_by_id
  decode-encode m meta c body v e f enc dec =
      let (_, by_name) = v.by_type (type_of m) meta e in
      let (_, by_id, _, _) = v.by_name meta.name meta by_name in
      (
        encode_message-meta meta m e ∙ encode_with-codec meta c f m body enc,
        decode_message-meta meta meta.id body by_id ∙ decode_with-codec meta c f m body dec,
      )
