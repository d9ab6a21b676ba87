-- ===== src/Gosproto/Meta/Loops.antt =====
-- The loop of `getSprotoTypeLocked` over the fields (gosproto/meta.go): what the type holds when it
-- ends without an error.
use cellorigin.Base.{
  ℕ, zero, suc, ◌^◌, ◌<◌, ◌≤◌, ◌≡◌, ◌≢◌, refl, sym, ap, ◌∙◌, subst, arith, List, [], ◌∷◌, ◌++◌,
  none, some, ltb, ltb→lt, length, length-append, get_elem?, ◌⊎◌, inl, inr, Bool-cases, All,
  All-append, Outcome, ok, err, panic,
}
use cellorigin.Base.Assoc.{lookup, insert, nat_eq, lookup-insert_self, lookup-insert_keep}
use cellorigin.Gosproto.Error.{Error}
use cellorigin.Gosproto.Meta.{
  ℤ, pos, negsuc, MetaField, MetaType, MetaState, StructField, Locked, Loop, complete, put_field,
  put_tag, add_field, after_add, after_init, fields_loop, init_field, empty_type, sorted,
  sproto_type,
}
use cellorigin.Gosproto.Meta.Sorted.{ℤ-cases, IsTagged, AreDistinct, sorted-IsWellFormed}
use cellorigin.Gosproto.RoundTrip.{Holds, IsWellFormed}

-- The indices of the first fields.
abbrev pub upto : ℕ → List ℕ
upto zero = []
upto (suc n) = upto n ++ n ∷ []

All-lt_suc : (n : ℕ) (order : List ℕ) → All (λ j. j < n) order → All (λ j. j < suc n) order
All-lt_suc n [] h = tt
All-lt_suc n (j ∷ order) (h, hs) = (omega arith, All-lt_suc n order hs)

upto-lt : (n : ℕ) → All (λ j. j < n) (upto n)
upto-lt zero = tt
upto-lt (suc n) =
    All-append (λ j. j < suc n) (upto n) (n ∷ []) (All-lt_suc n (upto n) (upto-lt n))
      (omega arith, tt)

Holds-append : (j n : ℕ) (order : List ℕ) → Holds j order ⊎ (n ≡ j) → Holds j (order ++ n ∷ [])
Holds-append j n [] (inl h) = elim h [ ]
Holds-append j n [] (inr e) = inl e
Holds-append j n (i ∷ order) (inl (inl e)) = inl e
Holds-append j n (i ∷ order) (inl (inr h)) = inr (Holds-append j n order (inl h))
Holds-append j n (i ∷ order) (inr e) = inr (Holds-append j n order (inr e))

Holds-upto : (n j : ℕ) → j < n → Holds j (upto n)
Holds-upto zero j h = absurd (omega arith)
Holds-upto (suc n) j h = elim (Bool-cases (ltb j n)) [
  | inl e ↦ Holds-append j n (upto n) (inl (Holds-upto n j (ltb→lt j n e)))
  | inr e ↦ Holds-append j n (upto n) (inr (ground arith))
]

AreDistinct-append :
    (ty : MetaType) (n : ℕ) (order : List ℕ)
    → AreDistinct ty order
    → All (λ j. j < n) order
    → AreDistinct ty (order ++ n ∷ [])
AreDistinct-append ty n [] o l = (tt, tt)
AreDistinct-append ty n (i ∷ order) (o, os) (l, ls) = (
  All-append (λ j. i ≢ j) order (n ∷ []) o ((λ e. absurd (omega arith)), tt),
  AreDistinct-append ty n order os ls,
)

AreDistinct-upto : (ty : MetaType) (n : ℕ) → AreDistinct ty (upto n)
AreDistinct-upto ty zero = tt
AreDistinct-upto ty (suc n) = AreDistinct-append ty n (upto n) (AreDistinct-upto ty n) (upto-lt n)

length-upto : (n : ℕ) → length (upto n) ≡ n
length-upto zero = refl
length-upto (suc n) = omega (arith, length-append (upto n) (n ∷ []), length-upto n)

get_elem?-append_last :
    (fields : List MetaField) (i : ℕ) (sf f : MetaField)
    → get_elem? (fields ++ sf ∷ []) i ≡ some f
    → (get_elem? fields i ≡ some f) ⊎ ((i ≡ length fields) × (sf ≡ f))
get_elem?-append_last [] zero sf f h = inr (refl, cc)
get_elem?-append_last [] (suc i) sf f h = absurd (cc)
get_elem?-append_last (x ∷ fields) zero sf f h = inl h
get_elem?-append_last (x ∷ fields) (suc i) sf f h = elim (get_elem?-append_last fields i sf f h) [
  | inl g ↦ inl g
  | inr (e, s) ↦ inr (ap suc e, s)
]

-- A type that the loop has filled so far: a tag leads to its field.
abbrev pub IsFilled : MetaType → Type 0
IsFilled ty =
    (ty.order ≡ upto (length ty.fields))
    × ((i t : ℕ) (sf : MetaField)
        → get_elem? ty.fields i ≡ some sf
        → sf.tag ≡ pos t
        → lookup t ty.tag_map ≡ some i)

order-put_field :
    (sf : MetaField) (ty : MetaType)
    → ty.order ≡ upto (length ty.fields)
    → (put_field sf ty).order ≡ upto (length (put_field sf ty).fields)
unfolding put_field
order-put_field sf ty e =
    let n : suc (length ty.fields) ≡ length (ty.fields ++ sf ∷ []) =
      omega (arith, length-append ty.fields (sf ∷ [])) in
    ap (λ o. o ++ length ty.fields ∷ []) e ∙ ap upto n

add_field-pos :
    (sf : MetaField) (t : ℕ) (ty ty' : MetaType)
    → add_field sf (pos t) ty ≡ ok ty'
    → (lookup t ty.tag_map ≡ none) × (put_tag t (length ty.fields) (put_field sf ty) ≡ ty')
unfolding add_field
add_field-pos sf t ty ty' h = ground arith

add_field-IsFilled :
    (sf : MetaField) (z : ℤ) (ty ty' : MetaType)
    → sf.tag ≡ z
    → IsFilled ty
    → add_field sf z ty ≡ ok ty'
    → IsFilled ty'
unfolding add_field put_field put_tag
add_field-IsFilled sf (negsuc n) ty ty' z (o, m) h =
    let e : put_field sf ty ≡ ty' = cc in
    subst IsFilled e (
      order-put_field sf ty o,
      λ i t f g q. elim (get_elem?-append_last ty.fields i sf f g) [
        | inl g' ↦ m i t f g' q
        | inr (_, s) ↦ absurd (let s' = ap (λ f. f.tag) s in cc)
      ],
    )
add_field-IsFilled sf (pos t) ty ty' z (o, m) h =
    let (free, e) = add_field-pos sf t ty ty' h in
    let here = lookup-insert_self t (length ty.fields) ty.tag_map in
    subst IsFilled e (
      order-put_field sf ty o,
      λ i u f g q. elim (get_elem?-append_last ty.fields i sf f g) [
        | inl g' ↦ lookup-insert_keep t u (length ty.fields) i ty.tag_map free (m i u f g' q)
        | inr (n, s) ↦
            let s' : sf.tag ≡ f.tag = ap (λ f. f.tag) s in
            let same : t ≡ u = cc in
            subst (λ u. lookup u (insert t (length ty.fields) ty.tag_map) ≡ some i) same (rw n here)
      ],
    )

after_add-IsFilled :
    (next : MetaType → MetaState → Loop) (s : MetaState) (ty : MetaType)
    (r : Outcome Error MetaType)
    → ((ty' : MetaType) → r ≡ ok ty' → IsFilled ty')
    → ((ty' : MetaType) (s : MetaState)
        → IsFilled ty'
        → (next ty' s).ended ≡ complete
        → IsFilled (next ty' s).made)
    → (after_add next s ty r).ended ≡ complete
    → IsFilled (after_add next s ty r).made
unfolding after_add
after_add-IsFilled next s ty (ok ty') w k h = k ty' s (w ty' refl) h
after_add-IsFilled next s ty (err e) w k h = absurd (cc)
after_add-IsFilled next s ty panic w k h = absurd (cc)

-- Where a round of the loop goes on, what it goes on with is filled.
after_init-IsFilled :
    (next : MetaType → MetaState → Loop) (ty : MetaType) (r : MetaState × Outcome Error MetaField)
    → IsFilled ty
    → ((ty' : MetaType) (s : MetaState)
        → IsFilled ty'
        → (next ty' s).ended ≡ complete
        → IsFilled (next ty' s).made)
    → (after_init next ty r).ended ≡ complete
    → IsFilled (after_init next ty r).made
unfolding after_init
after_init-IsFilled next ty (s, err e) w k h = w
after_init-IsFilled next ty (s, panic) w k h = w
after_init-IsFilled next ty (s, ok sf) w k h =
    after_add-IsFilled next s (put_field sf ty) (add_field sf sf.tag ty)
      (λ ty'. add_field-IsFilled sf sf.tag ty ty' refl w) k h

pub fields_loop-IsFilled :
    (locked : Locked) (fs : List StructField) (ty : MetaType) (s : MetaState)
    → IsFilled ty
    → (fields_loop locked fs ty s).ended ≡ complete
    → IsFilled (fields_loop locked fs ty s).made
unfolding fields_loop
fields_loop-IsFilled locked [] ty s w h = w
fields_loop-IsFilled locked (f ∷ fs) ty s w h =
    let next : MetaType → MetaState → Loop = λ ty' s'. fields_loop locked fs ty' s' in
    after_init-IsFilled next ty (init_field locked f s) w
      (λ ty' s' w' h'. fields_loop-IsFilled locked fs ty' s' w' h') h

pub empty-IsFilled : (n : ℕ) → IsFilled (empty_type n)
empty-IsFilled n = (refl, λ i t sf h. absurd (cc))

-- The tags of a type have 15 bits.
abbrev pub HasShortTags : MetaType → Type 0
HasShortTags ty =
    (i t : ℕ) (sf : MetaField) → get_elem? ty.fields i ≡ some sf → sf.tag ≡ pos t → t < 2 ^ 15

get_elem?-lt :
    (fields : List MetaField) (i : ℕ)
    → i < length fields
    → (sf : MetaField) × (get_elem? fields i ≡ some sf)
get_elem?-lt [] i h = absurd (omega arith)
get_elem?-lt (f ∷ fields) zero h = (f, refl)
get_elem?-lt (f ∷ fields) (suc i) h = get_elem?-lt fields i (omega arith)

filled-IsTagged :
    (ty : MetaType) (i : ℕ) → IsFilled ty → HasShortTags ty → i < length ty.fields → IsTagged ty i
filled-IsTagged ty i (o, m) h l =
    let (sf, g) = get_elem?-lt ty.fields i l in
    (
      sf,
      g,
      elim (ℤ-cases sf.tag) [ inl d ↦ inl d | inr (t, e) ↦ inr (t, e, h i t sf g e, m i t sf g e) ],
    )

filled-All :
    (ty : MetaType) (n : ℕ) (order : List ℕ)
    → IsFilled ty
    → HasShortTags ty
    → n ≤ length ty.fields
    → All (λ j. j < n) order
    → All (IsTagged ty) order
filled-All ty n [] w h l a = tt
filled-All ty n (i ∷ order) w h l (a, as') =
    (filled-IsTagged ty i w h (omega arith), filled-All ty n order w h l as')

-- When the loop is complete, sorting gives a well-formed type.
pub filled-IsWellFormed :
    (ty : MetaType) → IsFilled ty → HasShortTags ty → IsWellFormed (sproto_type (sorted ty))
filled-IsWellFormed ty (o, m) h =
    let n = length ty.fields in
    sorted-IsWellFormed ty
      (subst (All (IsTagged ty)) (sym o)
        (filled-All ty n (upto n) (o, m) h (omega arith) (upto-lt n)))
      (subst (AreDistinct ty) (sym o) (AreDistinct-upto ty n))
      (omega (arith, ap length o, length-upto n))
      (λ j l. subst (Holds j) (sym o) (Holds-upto n j l))
