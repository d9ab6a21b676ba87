-- ===== src/Gosproto/Layout/Fill.antt =====
-- The fields that a message sets in a cleared struct are those in which it differs from the value.
use cellorigin.Base.{
  ℕ, zero, suc, ◌+◌, ◌≡◌, ◌≢◌, refl, sym, ap, ◌∙◌, arith, List, [], ◌∷◌, Option, none, some, ◌==◌,
  get_elem?, subst, Outcome, inl, inr, Bool-cases, ◌⊎◌,
}
use cellorigin.Gosproto.Error.{Error}
use cellorigin.Gosproto.Types.{
  Coder, SprotoField, SprotoType, Value, Values, end, field, zero_of, zeros, get_value, set_value,
}
use cellorigin.Gosproto.Decode.{field_by_tag}
use cellorigin.Gosproto.Layout.{
  Entry, untagged, absent, embedded, chunked, index, fill, IsLaid, IsPlaced, IsBlank,
}

get-set_self :
    (vs : Values) (i : ℕ) (v w : Value)
    → get_value vs i ≡ some v
    → get_value (set_value vs i w) i ≡ some w
unfolding get_value set_value
get-set_self end i v w h = absurd (cc)
get-set_self (field x vs) zero v w h = refl
get-set_self (field x vs) (suc i) v w h = get-set_self vs i v w h

get-set_other :
    (vs : Values) (i j : ℕ) (w : Value) → i ≢ j → get_value (set_value vs i w) j ≡ get_value vs j
unfolding get_value set_value
get-set_other end i j w n = refl
get-set_other (field x vs) zero zero w n = absurd (n refl)
get-set_other (field x vs) zero (suc j) w n = refl
get-set_other (field x vs) (suc i) zero w n = refl
get-set_other (field x vs) (suc i) (suc j) w n = get-set_other vs i j w (λ e. n (ap suc e))

Values-ext : (a b : Values) → ((j : ℕ) → get_value a j ≡ get_value b j) → a ≡ b
unfolding get_value
Values-ext end end h = refl
Values-ext end (field y b) h = let e : none ≡ some y = h 0 in absurd (cc)
Values-ext (field x a) end h = let e : some x ≡ none = h 0 in absurd (cc)
Values-ext (field x a) (field y b) h =
    let h0 : some x ≡ some y = h 0 in
    let e : x ≡ y = cc in ap (λ v. field v a) e ∙ ap (field y) (Values-ext a b (λ j. h (suc j)))

pub get_value-zeros :
    (fields : List SprotoField) (i : ℕ) (sf : SprotoField)
    → get_elem? fields i ≡ some sf
    → get_value (zeros fields) i ≡ some (zero_of sf.coder)
unfolding get_value zeros
get_value-zeros [] i sf h = absurd (cc)
get_value-zeros (f ∷ fields) zero sf h = let e : f ≡ sf = cc in ap (λ f. some (zero_of f.coder)) e
get_value-zeros (f ∷ fields) (suc i) sf h = get_value-zeros fields i sf h

get_elem-field_by_tag :
    (st : SprotoType) (t i : ℕ) (sf : SprotoField)
    → field_by_tag st t ≡ some (i, sf)
    → get_elem? st.fields i ≡ some sf
unfolding field_by_tag
get_elem-field_by_tag st t i sf h = ground arith

module _ (dec : ℕ → Coder → Option ℕ → List ℕ → Outcome Error Value) (st : SprotoType)
    (vs : Values) where
  abbrev Settled : ℕ → Values → Type 0
  Settled j cur = get_value cur j ≡ get_value vs j

  -- What a field holds while the message is decoded: its zero or its value.
  abbrev Half : ℕ → Values → Type 0
  Half j cur = (get_value cur j ≡ get_value (zeros st.fields) j) ⊎ Settled j cur

  set_value-at :
      (next i t : ℕ) (sf : SprotoField) (v : Value) (cur : Values)
      → IsPlaced dec st vs next i t sf v
      → Half i cur
      → Settled i (set_value cur i v)
  set_value-at next i t sf v cur (n, u, k, g) (inl b) =
      get-set_self cur i _ v
        (b ∙ get_value-zeros st.fields i sf (get_elem-field_by_tag st t i sf k))
      ∙ sym g
  set_value-at next i t sf v cur (n, u, k, g) (inr b) = get-set_self cur i _ v (b ∙ g) ∙ sym g

  -- Another field keeps what it holds, and the field that is set holds its value.
  set_value-cases :
      (next i t j : ℕ) (sf : SprotoField) (v : Value) (cur : Values)
      → IsPlaced dec st vs next i t sf v
      → Half i cur
      → Settled j (set_value cur i v) ⊎ (get_value (set_value cur i v) j ≡ get_value cur j)
  set_value-cases next i t j sf v cur p b = elim (Bool-cases (i == j)) [
    | inl e ↦
        let same : i ≡ j = ground arith in
        inl (subst (λ j. Settled j (set_value cur i v)) same (set_value-at next i t sf v cur p b))
    | inr e ↦ inr (get-set_other cur i j v (λ same. ground arith))
  ]

  set_value-Half :
      (next i t : ℕ) (sf : SprotoField) (v : Value) (cur : Values)
      → IsPlaced dec st vs next i t sf v
      → ((j : ℕ) → Half j cur)
      → (j : ℕ) → Half j (set_value cur i v)
  set_value-Half next i t sf v cur p h j = elim (set_value-cases next i t j sf v cur p (h i)) [
    | inl s ↦ inr s
    | inr e ↦ elim (h j) [ inl z ↦ inl (e ∙ z) | inr s ↦ inr (e ∙ s) ]
  ]

  set_value-keep :
      (next i t j : ℕ) (sf : SprotoField) (v : Value) (cur : Values)
      → IsPlaced dec st vs next i t sf v
      → Half i cur
      → Settled j cur
      → Settled j (set_value cur i v)
  set_value-keep next i t j sf v cur p b s = elim (set_value-cases next i t j sf v cur p b) [
    | inl d ↦ d
    | inr e ↦ e ∙ s
  ]

  fill-Half :
      (next : ℕ) (es : List Entry) (cur : Values)
      → IsLaid dec st vs next es
      → ((j : ℕ) → Half j cur)
      → (j : ℕ) → Half j (fill es cur)
  fill-Half next [] cur w h = h
  fill-Half next (untagged i e ∷ es) cur (b, w) h = fill-Half next es cur w h
  fill-Half next (absent i t d ∷ es) cur (b, w) h = fill-Half next es cur w h
  fill-Half next (embedded i t sf v x ∷ es) cur (p, _, _, w) h =
      fill-Half (t + 1) es (set_value cur i v) w (set_value-Half next i t sf v cur p h)
  fill-Half next (chunked i t sf v bs ∷ es) cur (p, _, _, w) h =
      fill-Half (t + 1) es (set_value cur i v) w (set_value-Half next i t sf v cur p h)

  fill-keep :
      (j next : ℕ) (es : List Entry) (cur : Values)
      → IsLaid dec st vs next es
      → ((j : ℕ) → Half j cur)
      → Settled j cur
      → Settled j (fill es cur)
  fill-keep j next [] cur w h s = s
  fill-keep j next (untagged i e ∷ es) cur (b, w) h s = fill-keep j next es cur w h s
  fill-keep j next (absent i t d ∷ es) cur (b, w) h s = fill-keep j next es cur w h s
  fill-keep j next (embedded i t sf v x ∷ es) cur (p, _, _, w) h s =
      fill-keep j (t + 1) es (set_value cur i v) w (set_value-Half next i t sf v cur p h)
        (set_value-keep next i t j sf v cur p (h i) s)
  fill-keep j next (chunked i t sf v bs ∷ es) cur (p, _, _, w) h s =
      fill-keep j (t + 1) es (set_value cur i v) w (set_value-Half next i t sf v cur p h)
        (set_value-keep next i t j sf v cur p (h i) s)

  abbrev pub Among : ℕ → List Entry → Type 0
  Among j [] = ⊥
  Among j (e ∷ es) = (index e ≡ j) ⊎ Among j es

  settle_blank : (i j : ℕ) (cur : Values) → i ≡ j → IsBlank dec st vs i → Half j cur → Settled j cur
  settle_blank i j cur e b (inl z) =
      z ∙ (ap (get_value (zeros st.fields)) (sym e) ∙ (b ∙ ap (get_value vs) e))
  settle_blank i j cur e b (inr s) = s

  fill-Settled :
      (j next : ℕ) (es : List Entry) (cur : Values)
      → IsLaid dec st vs next es
      → ((j : ℕ) → Half j cur)
      → Among j es
      → Settled j (fill es cur)
  fill-Settled j next [] cur w h m = elim m [ ]
  fill-Settled j next (untagged i x ∷ es) cur (b, w) h (inl e) =
      settle_blank i j (fill es cur) e b (fill-Half next es cur w h j)
  fill-Settled j next (absent i t d ∷ es) cur (b, w) h (inl e) =
      settle_blank i j (fill es cur) e b (fill-Half next es cur w h j)
  fill-Settled j next (embedded i t sf v x ∷ es) cur (p, _, _, w) h (inl e) =
      fill-keep j (t + 1) es (set_value cur i v) w (set_value-Half next i t sf v cur p h)
        (subst (λ j. Settled j (set_value cur i v)) e (set_value-at next i t sf v cur p (h i)))
  fill-Settled j next (chunked i t sf v bs ∷ es) cur (p, _, _, w) h (inl e) =
      fill-keep j (t + 1) es (set_value cur i v) w (set_value-Half next i t sf v cur p h)
        (subst (λ j. Settled j (set_value cur i v)) e (set_value-at next i t sf v cur p (h i)))
  fill-Settled j next (untagged i x ∷ es) cur (b, w) h (inr m) = fill-Settled j next es cur w h m
  fill-Settled j next (absent i t d ∷ es) cur (b, w) h (inr m) = fill-Settled j next es cur w h m
  fill-Settled j next (embedded i t sf v x ∷ es) cur (p, _, _, w) h (inr m) =
      fill-Settled j (t + 1) es (set_value cur i v) w (set_value-Half next i t sf v cur p h) m
  fill-Settled j next (chunked i t sf v bs ∷ es) cur (p, _, _, w) h (inr m) =
      fill-Settled j (t + 1) es (set_value cur i v) w (set_value-Half next i t sf v cur p h) m

  -- Where each index is among the entries, or names no field, the struct is the value at the end.
  pub fill-zeros :
      (es : List Entry)
      → IsLaid dec st vs 0 es
      → ((j : ℕ) → Among j es ⊎ IsBlank dec st vs j)
      → fill es (zeros st.fields) ≡ vs
  fill-zeros es w c = Values-ext (fill es (zeros st.fields)) vs (λ j. elim (c j) [
    | inl m ↦ fill-Settled j 0 es (zeros st.fields) w (λ i. inl refl) m
    | inr b ↦ settle_blank j j _ refl b (fill-Half 0 es (zeros st.fields) w (λ i. inl refl) j)
  ])
