-- ===== src/Gosproto/RoundTrip/Nested.antt =====
-- Messages that hold messages (gosproto/encode.go, gosproto/decode.go), and the round trip through
-- `Encode` and `Decode`.
use cellorigin.Base.{
  ℕ, zero, suc, ◌+◌, ◌≤◌, ◌≡◌, refl, sym, ap, ◌∙◌, subst, arith, List, [], ◌∷◌, ◌++◌, append-nil,
  length-append, some, length, drop, All, Outcome, ok, ◌>>=◌, Bool, true, false, inl, inr,
}
use cellorigin.Base.Bits.{IsByte}
use cellorigin.Gosproto.Error.{Error}
use cellorigin.Gosproto.Types.{
  Coder, SprotoField, SprotoType, bool, string, bool_slice, bytes, string_slice, unset, integer,
  integer_slice, struct, struct_slice, Value, Values, Structs, nil, bool_of, struct_of, structs_of,
  item, zero_of, zeros,
}
use cellorigin.Gosproto.Encode.{
  enc, encode_structs, encode_message, header_enc, encode_chunks, pointer, encode_sproto,
}
use cellorigin.Gosproto.Encode.Buffers.{chunk, chunks, encode_chunks-chunks}
use cellorigin.Gosproto.Decode.{dec_with, used_all, read_structs, decode_message, decode_sproto}
use cellorigin.Gosproto.Decode.Slices.{IsShort, read_chunk-chunk, drop-chunk}
use cellorigin.Gosproto.RoundTrip.{
  IsWellFormed, Fits, FitsChunk, HoldsNil, IsSent, flag, number, text, blob, flags, numbers, texts,
  message, messages, nothing, AreSent, none_left, untagged, tagged, AllSent, no_more, one_more,
  IsCoded, AreCoded,
}
use cellorigin.Gosproto.RoundTrip.Fields.{
  int-IsCoded, string-IsCoded, bytes-IsCoded, bools-IsCoded, ints-IsCoded, strings-IsCoded,
}
use cellorigin.Gosproto.RoundTrip.Ordered.{IsMessage, encode_message-IsMessage}

used_all-length : (bs : List ℕ) (vs : Values) → used_all bs (length bs, vs) ≡ ok vs
unfolding used_all
used_all-length bs vs = ground arith

module _ (types : ℕ → SprotoType) where
  bool-IsCoded : (b : Bool) → IsCoded types bool (bool_of b)
  unfolding enc header_enc dec_with zero_of
  bool-IsCoded false = IsCoded.absent refl refl
  bool-IsCoded true = IsCoded.embedded 1 (omega arith) refl refl (λ fuel. refl)

  nil-IsCoded : (c : Coder) → HoldsNil c → IsCoded types c nil
  unfolding header_enc zero_of
  nil-IsCoded bool h = elim h [ ]
  nil-IsCoded string h = elim h [ ]
  nil-IsCoded unset h = elim h [ ]
  nil-IsCoded (integer k) h = elim h [ ]
  nil-IsCoded bool_slice h = IsCoded.absent refl refl
  nil-IsCoded bytes h = IsCoded.absent refl refl
  nil-IsCoded string_slice h = IsCoded.absent refl refl
  nil-IsCoded (integer_slice k) h = IsCoded.absent refl refl
  nil-IsCoded (struct st) h = IsCoded.absent refl refl
  nil-IsCoded (struct_slice st) h = IsCoded.absent refl refl

  struct-IsCoded :
      (st : ℕ) (vs : Values) (bs : List ℕ)
      → encode_message types (types st) vs ≡ ok bs
      → IsMessage types (types st) vs bs
      → Fits (enc types (struct st) (struct_of vs))
      → IsCoded types (struct st) (struct_of vs)
  unfolding enc encode_message header_enc dec_with
  struct-IsCoded st vs bs e (two, r) f =
      let e' = ap (λ o. o >>= λ d. ok (some d)) e in
      IsCoded.chunked bs refl e' (subst Fits e' f) (λ fuel l.
        let whole =
          ap (λ b. decode_message types fuel (types st) b (zeros (types st).fields))
            (sym (append-nil bs))
          ∙ r fuel [] l in
        ap (λ o. o >>= λ r. used_all bs r >>= λ vs. ok (struct_of vs)) whole
        ∙ ap (λ o. o >>= λ vs. ok (struct_of vs)) (used_all-length bs vs))

  -- Messages one behind the other, and that they are read back.
  abbrev AreMessages : SprotoType → Structs → List (List ℕ) → Type 0
  AreMessages st ss vals =
      All IsShort vals
      × ((fuel rounds : ℕ)
          → length (chunks vals) ≤ fuel
          → length (chunks vals) ≤ rounds
          → read_structs (λ bs. decode_message types fuel st bs (zeros st.fields)) rounds
              (chunks vals)
            ≡ ok ss)

  structs-IsCoded :
      (st : ℕ) (ss : Structs) (vals : List (List ℕ))
      → encode_structs types (types st) ss ≡ ok vals
      → AreMessages (types st) ss vals
      → Fits (enc types (struct_slice st) (structs_of ss))
      → IsCoded types (struct_slice st) (structs_of ss)
  unfolding enc header_enc dec_with
  structs-IsCoded st ss vals e (s, r) f =
      let e' =
        ap (λ o. o >>= λ vals. encode_chunks vals >>= λ d. ok (some d)) e
        ∙ ap (λ o. o >>= λ d. ok (some d)) (encode_chunks-chunks vals) in
      IsCoded.chunked (chunks vals) refl e' (subst Fits e' f) (λ fuel l.
        ap (λ o. o >>= λ ss. ok (structs_of ss)) (r fuel (length (chunks vals)) l (omega arith)))

  read_structs-item :
      (st : SprotoType) (vs : Values) (ss : Structs) (bs : List ℕ) (vals : List (List ℕ))
      (fuel rounds : ℕ)
      → IsShort bs
      → IsMessage types st vs bs
      → AreMessages st ss vals
      → length (chunks (bs ∷ vals)) ≤ fuel
      → length (chunks (bs ∷ vals)) ≤ rounds
      → read_structs
          (λ bs. decode_message types fuel st bs (zeros st.fields))
          rounds
          (chunks (bs ∷ vals))
        ≡ ok (item vs ss)
  unfolding read_structs
  read_structs-item st vs ss bs vals fuel zero s m ms l l' = absurd (omega arith)
  read_structs-item st vs ss bs vals fuel (suc rounds) s (two, r) (_, rs) l l' =
      let all = length-append bs (chunks vals) in
      let msg : List ℕ → Outcome Error (ℕ × Values) =
        λ bs. decode_message types fuel st bs (zeros st.fields) in
      let next : Values → List ℕ → Outcome Error Structs =
        λ vs' t. read_structs msg rounds t >>= λ rest. ok (item vs' rest) in
      let tail = chunk bs ++ chunks vals in
      let whole =
        ap (λ b. decode_message types fuel st b (zeros st.fields)) (sym (append-nil bs))
        ∙ r fuel [] (omega arith) in
      ap
        (λ o.
          o >>= λ (used, buf). msg buf >>= λ r. used_all buf r >>= λ vs'. next vs' (drop used tail))
        (read_chunk-chunk bs (chunks vals) s)
      ∙ (ap (λ o. o >>= λ r. used_all bs r >>= λ vs'. next vs' (drop (4 + length bs) tail)) whole
          ∙ (ap (λ o. o >>= λ vs'. next vs' (drop (4 + length bs) tail)) (used_all-length bs vs)
              ∙ (ap (next vs) (drop-chunk bs (chunks vals))
                  ∙ ap (λ o. o >>= λ rest. ok (item vs rest))
                      (rs fuel rounds (omega arith) (omega arith)))))

  module _ (wf : (t : ℕ) → IsWellFormed (types t)) where
    mutual
      unfolding encode_structs read_structs encode_message

      value-IsCoded :
          (c : Coder) (v : Value) → IsSent types c v → Fits (enc types c v) → IsCoded types c v
      value-IsCoded _ _ (flag b) f = bool-IsCoded b
      value-IsCoded _ _ (number k n i s) f = int-IsCoded types k n i s
      value-IsCoded _ _ (text s) f = string-IsCoded types s f
      value-IsCoded _ _ (blob s) f = bytes-IsCoded types s f
      value-IsCoded _ _ (flags bs) f = bools-IsCoded types bs f
      value-IsCoded _ _ (numbers k ns a) f = ints-IsCoded types k ns a f
      value-IsCoded _ _ (texts ss a) f = strings-IsCoded types ss a f
      value-IsCoded _ _ (message st vs a) f =
          let (bs, e, m) =
            encode_message-IsMessage types (types st) vs (wf st)
              (values-AreCoded (types st).fields vs a) in
          struct-IsCoded st vs bs e m f
      value-IsCoded _ _ (messages st ss a) f =
          let (vals, e, m) = structs-AreMessages (types st) ss (wf st) a in
          structs-IsCoded st ss vals e m f
      value-IsCoded _ _ (nothing c h) f = nil-IsCoded c h

      values-AreCoded :
          (fields : List SprotoField) (vs : Values)
          → AreSent types fields vs
          → AreCoded types fields vs
      values-AreCoded _ _ none_left = tt
      values-AreCoded _ _ (untagged sf v fields vs n z a) =
          (inl (n, z), values-AreCoded fields vs a)
      values-AreCoded _ _ (tagged sf v fields vs n s f a) =
          (inr (n, value-IsCoded sf.coder v s f), values-AreCoded fields vs a)

      structs-AreMessages :
          (st : SprotoType) (ss : Structs)
          → IsWellFormed st
          → AllSent types st ss
          → (vals : List (List ℕ)) × (encode_structs types st ss ≡ ok vals) × AreMessages st ss vals
      structs-AreMessages _ _ w (no_more st) = ([], refl, (tt, λ fuel rounds l l'. refl))
      structs-AreMessages _ _ w (one_more st vs ss a f more) =
          let (bs, e, m) =
            encode_message-IsMessage types st vs w (values-AreCoded st.fields vs a) in
          let (vals, e', ms) = structs-AreMessages st ss w more in
          let s : IsShort bs = subst FitsChunk e f in
          (
            bs ∷ vals,
            ap (λ o. o >>= λ val. encode_structs types st ss >>= λ vals. ok (val ∷ vals)) e
                ∙ ap (λ o. o >>= λ vals. ok (bs ∷ vals)) e',
            (
              (s, ms.0),
              λ fuel rounds l l'. read_structs-item st vs ss bs vals fuel rounds s m ms l l',
            ),
          )

    encoded :
        (get_type : ℕ → Outcome Error SprotoType) (t : ℕ) (vs : Values)
        → get_type t ≡ ok (types t)
        → AreSent types (types t).fields vs
        → (bs : List ℕ) × (encode_sproto get_type types (pointer t vs) ≡ ok bs)
          × IsMessage types (types t) vs bs
    unfolding encode_sproto
    encoded get_type t vs g a =
        let (bs, e, m) =
          encode_message-IsMessage types (types t) vs (wf t)
            (values-AreCoded (types t).fields vs a) in
        (bs, ap (λ o. o >>= λ st. encode_message types st vs) g ∙ e, m)

    -- The message and its bytes, and what `Decode` makes of it.
    pub decode_sproto-encode_sproto_bytes :
        (get_type : ℕ → Outcome Error SprotoType) (t : ℕ) (vs into : Values)
        → get_type t ≡ ok (types t)
        → AreSent types (types t).fields vs
        → (bs : List ℕ) × (encode_sproto get_type types (pointer t vs) ≡ ok bs)
          × All IsByte bs
          × ((rest : List ℕ)
              → decode_sproto types get_type (bs ++ rest) (pointer t into) ≡ ok (length bs, vs))
    unfolding decode_sproto
    decode_sproto-encode_sproto_bytes get_type t vs into g a =
        let (bs, e, (b, r)) = encoded get_type t vs g a in
        (
          bs,
          e,
          b,
          λ rest.
              ap
                (λ o. o >>= λ st.
                  decode_message types (suc (length (bs ++ rest))) st (bs ++ rest)
                    (zeros st.fields))
                g
              ∙ r (suc (length (bs ++ rest))) rest (omega (arith, length-append bs rest)),
        )

    -- For a value of a type whose fields all have values that their coders give back, where the types
    -- are well formed (tags ascend along `order`, have 15 bits and lead back to their field), `Encode`
    -- gives a message without an error, and `Decode` of this message, whatever bytes follow it, gives
    -- its length and the same value, into whatever struct it is decoded.
    pub decode_sproto-encode_sproto :
        (get_type : ℕ → Outcome Error SprotoType) (t : ℕ) (vs into : Values) (rest : List ℕ)
        → get_type t ≡ ok (types t)
        → AreSent types (types t).fields vs
        → (bs : List ℕ) × (encode_sproto get_type types (pointer t vs) ≡ ok bs)
          × (decode_sproto types get_type (bs ++ rest) (pointer t into) ≡ ok (length bs, vs))
    decode_sproto-encode_sproto get_type t vs into rest g a =
        let (bs, e, _, r) = decode_sproto-encode_sproto_bytes get_type t vs into g a in
        (bs, e, r rest)
