-- ===== src/Gosproto/RoundTrip/Ordered.antt =====
-- The fields of a value, in the order of their tags, as the entries of a message.
use cellorigin.Base.{
  ℕ, zero, suc, ◌+◌, ◌^◌, ◌<◌, ◌≤◌, ◌≡◌, ◌≢◌, refl, sym, ap, ◌∙◌, arith, List, [], ◌∷◌, ◌++◌,
  Option, none, some, get_elem?, length, All, subst, Outcome, ok, ◌⊎◌, inl, inr, map, Bool, ltb,
  ltb→lt, length-append, Bool-cases,
}
use cellorigin.Base.Assoc.{lookup, nat_eq}
use cellorigin.Base.Bits.{IsByte}
use cellorigin.Gosproto.Error.{Error}
use cellorigin.Gosproto.Types.{
  SprotoField, SprotoType, Value, Values, end, field, zero_of, zeros, get_value,
}
use cellorigin.Gosproto.Encode.{Encoded, header_enc, enc, enc_values, encode_message, in_order}
use cellorigin.Gosproto.Decode.{field_by_tag, decode_message}
use cellorigin.Gosproto.Layout.{
  Entry, untagged, absent, embedded, chunked, index, item, body_of, fill, IsLaid, IsBlank,
}
use cellorigin.Gosproto.Layout.Fill.{Among, get_value-zeros, fill-zeros}
use cellorigin.Gosproto.Layout.Message.{
  message_of, header_of, length-header_of, assemble-message_of, message_of-IsByte,
  message_with-message_of,
}
use cellorigin.Gosproto.RoundTrip.{IsOrdered, Holds, IsWellFormed, IsCoded, AreCoded, dec_at}

module _ (types : ℕ → SprotoType) where
  abbrev coded_by : SprotoField → Value → Encoded
  coded_by sf v = record { header = header_enc sf.coder v; data_of = enc types sf.coder v }

  abbrev IsField : SprotoField → Value → Type 0
  IsField sf v =
      ((sf.tag ≡ none) × (v ≡ zero_of sf.coder)) ⊎ ((sf.tag ≢ none) × IsCoded types sf.coder v)

  -- The value of a field, and what the coders make of it.
  get-AreCoded :
      (fields : List SprotoField) (vs : Values) (i : ℕ) (sf : SprotoField)
      → AreCoded types fields vs
      → get_elem? fields i ≡ some sf
      → (v : Value) × (get_value vs i ≡ some v)
        × (get_elem? (enc_values types fields vs) i ≡ some (coded_by sf v))
        × IsField sf v
  unfolding get_value enc_values
  get-AreCoded [] end i sf a h = absurd (cc)
  get-AreCoded [] (field v vs) i sf a h = elim a [ ]
  get-AreCoded (f ∷ fields) end i sf a h = elim a [ ]
  get-AreCoded (f ∷ fields) (field v vs) zero sf (c, a) h =
      let e : f ≡ sf = cc in
      (v, refl, ap (λ f. some (coded_by f v)) e, subst (λ f. IsField f v) e c)
  get-AreCoded (f ∷ fields) (field v vs) (suc i) sf (c, a) h = get-AreCoded fields vs i sf a h

  -- A struct has as many values as its type has fields.
  blank_beyond :
      (fields : List SprotoField) (vs : Values) (j : ℕ)
      → AreCoded types fields vs
      → length fields ≤ j
      → get_value (zeros fields) j ≡ get_value vs j
  unfolding get_value zeros
  blank_beyond [] end j a h = refl
  blank_beyond [] (field v vs) j a h = elim a [ ]
  blank_beyond (f ∷ fields) end j a h = elim a [ ]
  blank_beyond (f ∷ fields) (field v vs) zero a h = absurd (omega arith)
  blank_beyond (f ∷ fields) (field v vs) (suc j) (c, a) h = blank_beyond fields vs j a (omega arith)

  field_by_tag-get :
      (st : SprotoType) (t i : ℕ) (sf : SprotoField)
      → lookup t st.tag_map ≡ some i
      → get_elem? st.fields i ≡ some sf
      → field_by_tag st t ≡ some (i, sf)
  unfolding field_by_tag
  field_by_tag-get st t i sf h g = ground arith

  item_by :
      (sf : SprotoField) (v : Value) (t : ℕ) (header : Outcome Error (ℕ × Bool))
      (d : Outcome Error (Option (List ℕ)))
      → sf.tag ≡ some t
      → header_enc sf.coder v ≡ header
      → enc types sf.coder v ≡ d
      → ◌≡◌ {A = Option ℕ × Encoded}
          (sf.tag, coded_by sf v)
          (some t, record { header = header; data_of = d })
  item_by sf v t header d e h f =
      ap (λ t. (t, coded_by sf v)) e
      ∙ (ap (λ x. (some t, record { header = x; data_of = enc types sf.coder v })) h
          ∙ ap (λ x. (some t, record { header = header; data_of = x })) f)

  in_order-next :
      (fields : List SprotoField) (encs : List Encoded) (i : ℕ) (is : List ℕ) (sf : SprotoField)
      (e : Encoded) (items : List (Option ℕ × Encoded))
      → get_elem? fields i ≡ some sf
      → get_elem? encs i ≡ some e
      → in_order fields encs is ≡ ok items
      → in_order fields encs (i ∷ is) ≡ ok ((sf.tag, e) ∷ items)
  unfolding in_order
  in_order-next fields encs i is sf e items g h o = ground arith

  module _ (st : SprotoType) (vs : Values) (a : AreCoded types st.fields vs) where
    -- The entries of a part of the order.
    abbrev Entries : ℕ → List ℕ → Type 0
    Entries next is =
        (es : List Entry) × (in_order st.fields (enc_values types st.fields vs) is
          ≡ ok (map item es))
        × IsLaid (dec_at types) st vs next es
        × ((j : ℕ) → Holds j is → Among (dec_at types) st vs j es)
        × (length es ≡ length is)

    -- One more entry, where it is laid before the others.
    add_entry :
        (lo next i : ℕ) (is : List ℕ) (sf : SprotoField) (v : Value) (e : Entry)
        → get_elem? st.fields i ≡ some sf
        → get_elem? (enc_values types st.fields vs) i ≡ some (coded_by sf v)
        → (sf.tag, coded_by sf v) ≡ item e
        → i ≡ index e
        → ((es : List Entry)
            → IsLaid (dec_at types) st vs next es
            → IsLaid (dec_at types) st vs lo (e ∷ es))
        → Entries next is
        → Entries lo (i ∷ is)
    add_entry lo next i is sf v e g h s k w (es, o, l, m, n) = (
      e ∷ es,
      in_order-next st.fields (enc_values types st.fields vs) i is sf (coded_by sf v) (map item es)
            g h o
          ∙ ap (λ x. ok (x ∷ map item es)) s,
      w es l,
      (λ j. λ q. elim q [ inl f ↦ inl (sym k ∙ f) | inr r ↦ inr (m j r) ]),
      ap suc n,
    )

    blank :
        (i : ℕ) (sf : SprotoField) (v : Value)
        → get_elem? st.fields i ≡ some sf
        → get_value vs i ≡ some v
        → v ≡ zero_of sf.coder
        → IsBlank (dec_at types) st vs i
    blank i sf v g h z = get_value-zeros st.fields i sf g ∙ (ap some (sym z) ∙ sym h)

    add_field :
        (lo next i t : ℕ) (is : List ℕ) (sf : SprotoField) (v : Value)
        → get_elem? st.fields i ≡ some sf
        → get_value vs i ≡ some v
        → get_elem? (enc_values types st.fields vs) i ≡ some (coded_by sf v)
        → sf.tag ≡ some t
        → lo ≤ next
        → next ≤ t
        → t < 2 ^ 15
        → lookup t st.tag_map ≡ some i
        → IsCoded types sf.coder v
        → Entries lo is
        → Entries (t + 1) is
        → Entries lo (i ∷ is)
    add_field lo next i t is sf v g h h' e o l u m (IsCoded.absent hd z) rest0 rest =
        add_entry lo lo i is sf v (absent i t (enc types sf.coder v)) g h'
          (item_by sf v t _ _ e hd refl) refl (λ es w. (blank i sf v g h z, w)) rest0
    add_field lo next i t is sf v g h h' e o l u m (IsCoded.embedded x lx hd d r) rest0 rest =
        add_entry lo (t + 1) i is sf v (embedded i t sf v x) g h' (item_by sf v t _ _ e hd d) refl
          (λ es w. ((omega arith, u, field_by_tag-get st t i sf m g, h), lx, r, w)) rest
    add_field lo next i t is sf v g h h' e o l u m (IsCoded.chunked bs hd d s r) rest0 rest =
        add_entry lo (t + 1) i is sf v (chunked i t sf v bs) g h' (item_by sf v t _ _ e hd d) refl
          (λ es w. ((omega arith, u, field_by_tag-get st t i sf m g, h), s, r, w)) rest

    entries : (lo next : ℕ) (is : List ℕ) → lo ≤ next → IsOrdered st next is → Entries lo is
    unfolding in_order
    entries lo next [] o w = ([], refl, tt, (λ j m. m), refl)
    entries lo next (i ∷ is) o (sf, g, inl (n, w)) =
        let (v, h, h', c) = get-AreCoded st.fields vs i sf a g in
        elim c [
          | inl (n', z) ↦
              add_entry lo lo i is sf v (untagged i (coded_by sf v)) g h'
                (ap (λ t. (t, coded_by sf v)) n) refl (λ es w'. (blank i sf v g h z, w'))
                (entries lo next is o w)
          | inr (n', c') ↦ absurd (n' n)
        ]
    entries lo next (i ∷ is) o (sf, g, inr (t, e, l, u, m, w)) =
        let (v, h, h', c) = get-AreCoded st.fields vs i sf a g in
        elim c [
          | inl (n', z) ↦ absurd (cc)
          | inr (n', c') ↦
              add_field lo next i t is sf v g h h' e o l u m c'
                (entries lo (t + 1) is (omega arith) w) (entries (t + 1) (t + 1) is (omega arith) w)
        ]

  -- A message, and that it is read back whatever follows it.
  abbrev pub IsMessage : SprotoType → Values → List ℕ → Type 0
  IsMessage st vs bs =
      All IsByte bs
      × ((fuel : ℕ) (rest : List ℕ)
          → length bs ≤ fuel
          → decode_message types fuel st (bs ++ rest) (zeros st.fields) ≡ ok (length bs, vs))

  decode_message-message_of :
      (st : SprotoType) (vs : Values) (es : List Entry) (fuel : ℕ) (rest : List ℕ)
      → IsLaid (dec_at types) st vs 0 es
      → fill es (zeros st.fields) ≡ vs
      → length (message_of es) ≤ fuel
      → decode_message types fuel st (message_of es ++ rest) (zeros st.fields)
        ≡ ok (length (message_of es), vs)
  unfolding decode_message
  decode_message-message_of st vs es zero rest w f l =
      absurd (omega (arith, length-append (header_of es) (body_of es), length-header_of es))
  decode_message-message_of st vs es (suc fuel) rest w f l =
      message_with-message_of (dec_at types) st vs fuel es rest (zeros st.fields) w
        (omega (arith, length-append (header_of es) (body_of es), length-header_of es))
      ∙ ap (λ v. ok (length (message_of es), v)) f

  pub encode_message-IsMessage :
      (st : SprotoType) (vs : Values)
      → IsWellFormed st
      → AreCoded types st.fields vs
      → (bs : List ℕ) × (encode_message types st vs ≡ ok bs) × IsMessage st vs bs
  unfolding encode_message
  encode_message-IsMessage st vs (ordered, few, all) a =
      let (es, o, w, m, n) = entries st vs a 0 0 st.order (omega arith) ordered in
      let covered : (j : ℕ) → Among (dec_at types) st vs j es ⊎ IsBlank (dec_at types) st vs j =
        λ j. elim (Bool-cases (ltb j (length st.fields))) [
          | inl e ↦ inl (m j (all j (ltb→lt j (length st.fields) e)))
          | inr e ↦ inr (blank_beyond st.fields vs j a (ground arith))
        ] in
      let f = fill-zeros (dec_at types) st vs es w covered in
      (
        message_of es,
        assemble-message_of (dec_at types) st vs (enc_values types st.fields vs) es o w
            (omega arith),
        (
          message_of-IsByte (dec_at types) st vs es w,
          λ fuel rest l. decode_message-message_of st vs es fuel rest w f l,
        ),
      )
