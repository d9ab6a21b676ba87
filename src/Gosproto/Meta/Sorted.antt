-- ===== src/Gosproto/Meta/Sorted.antt =====
-- `sort.Sort(st)` of gosproto/meta.go: the order that it leaves is the one the coders need.
use cellorigin.Base.{
  ℕ, zero, suc, ◌+◌, ◌^◌, ◌<◌, ◌≤◌, ◌≡◌, ◌≢◌, refl, sym, ap, ◌∙◌, arith, List, [], ◌∷◌, none, some,
  ltb, ltb→lt, length, subst, get_elem?, map, ◌⊎◌, inl, inr, Bool-cases, All,
}
use cellorigin.Base.Assoc.{lookup, nat_eq}
use cellorigin.Gosproto.Meta.{
  ℤ, pos, negsuc, less_ℤ, MetaField, MetaType, tag_of, insert_by, sort_by, sorted, field_of,
  sproto_type,
}
use cellorigin.Gosproto.RoundTrip.{IsOrdered, Holds, IsWellFormed}

-- Every index names a field; a tag of fifteen bits leads back to it; and no other tag is too large.
abbrev pub IsTagged : MetaType → ℕ → Type 0
IsTagged ty i =
    (sf : MetaField) × (get_elem? ty.fields i ≡ some sf)
    × (((n : ℕ) × (sf.tag ≡ negsuc n))
        ⊎ ((t : ℕ) × (sf.tag ≡ pos t) × (t < 2 ^ 15) × (lookup t ty.tag_map ≡ some i)))

get_elem?-map_field :
    (fields : List MetaField) (i : ℕ) (sf : MetaField)
    → get_elem? fields i ≡ some sf
    → get_elem? (map field_of fields) i ≡ some (field_of sf)
get_elem?-map_field [] i sf h = absurd (cc)
get_elem?-map_field (f ∷ fields) zero sf h = let e : f ≡ sf = cc in ap (λ f. some (field_of f)) e
get_elem?-map_field (f ∷ fields) (suc i) sf h = get_elem?-map_field fields i sf h

length-map_field : (fields : List MetaField) → length (map field_of fields) ≡ length fields
length-map_field [] = refl
length-map_field (f ∷ fields) = ap suc (length-map_field fields)

tag_of-get :
    (fields : List MetaField) (i : ℕ) (sf : MetaField)
    → get_elem? fields i ≡ some sf
    → tag_of fields i ≡ sf.tag
unfolding tag_of
tag_of-get fields i sf h = ground arith

pub ℤ-cases : (z : ℤ) → ((n : ℕ) × (z ≡ negsuc n)) ⊎ ((t : ℕ) × (z ≡ pos t))
ℤ-cases (pos t) = inr (t, refl)
ℤ-cases (negsuc n) = inl (n, refl)

module _ (ty : MetaType) where
  abbrev IsSorted : ℕ → List ℕ → Type 0
  IsSorted next is = IsOrdered (sproto_type ty) next is

  abbrev tag_at : ℕ → ℤ
  tag_at i = tag_of ty.fields i

  cons-untagged :
      (i next n : ℕ) (order : List ℕ)
      → IsTagged ty i
      → tag_at i ≡ negsuc n
      → IsSorted next order
      → IsSorted next (i ∷ order)
  unfolding sproto_type field_of
  cons-untagged i next n order (sf, g, d) e w =
      let same : sf.tag ≡ negsuc n = sym (tag_of-get ty.fields i sf g) ∙ e in
      (field_of sf, get_elem?-map_field ty.fields i sf g, inl (rw same refl, w))

  cons-tagged :
      (i next t : ℕ) (order : List ℕ)
      → IsTagged ty i
      → tag_at i ≡ pos t
      → next ≤ t
      → IsSorted (t + 1) order
      → IsSorted next (i ∷ order)
  unfolding sproto_type field_of
  cons-tagged i next t order (sf, g, inl (n, f)) e l w =
      let same : sf.tag ≡ pos t = sym (tag_of-get ty.fields i sf g) ∙ e in absurd (cc)
  cons-tagged i next t order (sf, g, inr (t', f, u, m)) e l w =
      let same : sf.tag ≡ pos t = sym (tag_of-get ty.fields i sf g) ∙ e in
      let eq : t' ≡ t = cc in
      (
        field_of sf,
        get_elem?-map_field ty.fields i sf g,
        inr (
          t,
          rw same refl,
          l,
          subst (λ t. t < 2 ^ 15) eq u,
          subst (λ t. lookup t ty.tag_map ≡ some i) eq m,
          w,
        ),
      )

  -- What the first of an order is, by its tag.
  uncons :
      (j next : ℕ) (order : List ℕ)
      → IsTagged ty j
      → IsSorted next (j ∷ order)
      → ((n : ℕ) × (tag_at j ≡ negsuc n) × IsSorted next order)
        ⊎ ((u : ℕ) × (tag_at j ≡ pos u) × (next ≤ u) × IsSorted (u + 1) order)
  unfolding sproto_type field_of
  uncons j next order (sf, g, d) (sf', g', w) =
      let same : sf' ≡ field_of sf = let h = get_elem?-map_field ty.fields j sf g in cc in
      let t = tag_of-get ty.fields j sf g in
      elim (ℤ-cases sf.tag) [
        | inl (n, e) ↦ elim w [
          | inl (_, w') ↦ inl (n, t ∙ e, w')
          | inr (u, f, _, _, _, _) ↦
              absurd
                (let k : (field_of sf).tag ≡ none = rw e refl in let q = ap (λ s. s.tag) same in cc)
        ]
        | inr (u, e) ↦ elim w [
          | inl (f, _) ↦
              absurd (
                let k : (field_of sf).tag ≡ some u = rw e refl in
                let q = ap (λ s. s.tag) same in cc)
          | inr (u', f, l, _, _, w') ↦
              let k : (field_of sf).tag ≡ some u = rw e refl in
              let q = ap (λ s. s.tag) same in
              let eq : u' ≡ u = cc in
              inr (u, t ∙ e, subst (λ u. next ≤ u) eq l, subst (λ u. IsSorted (u + 1) order) eq w')
        ]
      ]

  lookup-tag_at : (i t : ℕ) → IsTagged ty i → tag_at i ≡ pos t → lookup t ty.tag_map ≡ some i
  lookup-tag_at i t (sf, g, inl (n, f)) e =
      let same : sf.tag ≡ pos t = sym (tag_of-get ty.fields i sf g) ∙ e in absurd (cc)
  lookup-tag_at i t (sf, g, inr (t', f, u, m)) e =
      let same : sf.tag ≡ pos t = sym (tag_of-get ty.fields i sf g) ∙ e in
      let eq : t' ≡ t = cc in subst (λ t. lookup t ty.tag_map ≡ some i) eq m

  tag_at-injective :
      (i j t : ℕ) → IsTagged ty i → IsTagged ty j → tag_at i ≡ pos t → tag_at j ≡ pos t → i ≡ j
  tag_at-injective i j t d d' e e' =
      let l = lookup-tag_at i t d e in let l' = lookup-tag_at j t d' e' in cc

  insert_by-IsSorted :
      (i next : ℕ) (order : List ℕ)
      → IsTagged ty i
      → All (IsTagged ty) order
      → IsSorted next order
      → ((t : ℕ) → tag_at i ≡ pos t → next ≤ t)
      → All (λ j. i ≢ j) order
      → IsSorted next (insert_by ty.fields i order)
  unfolding insert_by less_ℤ
  insert_by-IsSorted i next [] d ds w l o = elim (ℤ-cases (tag_at i)) [
    | inl (n, e) ↦ cons-untagged i next n [] d e tt
    | inr (t, e) ↦ cons-tagged i next t [] d e (l t e) tt
  ]
  insert_by-IsSorted i next (j ∷ order) d (dj, ds) w l (o, os) = elim (uncons j next order dj w) [
    | inl (m, f, w') ↦ elim (ℤ-cases (tag_at i)) [
      | inl (n, e) ↦ elim (Bool-cases (ltb n m)) [
        | inl b ↦
            rw (f, e, b)
              (cons-untagged j next m _ dj f (insert_by-IsSorted i next order d ds w' l os))
        | inr b ↦ rw (f, e, b) (cons-untagged i next n (j ∷ order) d e w)
      ]
      | inr (t, e) ↦
          rw (f, e) (cons-untagged j next m _ dj f (insert_by-IsSorted i next order d ds w' l os))
    ]
    | inr (u, f, k, w') ↦ elim (ℤ-cases (tag_at i)) [
      | inl (n, e) ↦ rw (f, e) (cons-untagged i next n (j ∷ order) d e w)
      | inr (t, e) ↦ elim (Bool-cases (ltb u t)) [
        | inl b ↦
            rw (f, e, b)
              (cons-tagged j next u _ dj f k (
                insert_by-IsSorted i (u + 1) order d ds w'
                  (λ t' e'. let same : t ≡ t' = cc in let lt = ltb→lt u t b in omega arith) os))
        | inr b ↦
            let apart : u ≢ t = λ s. o (tag_at-injective i j t d dj e (f ∙ ap pos s)) in
            rw (f, e, b)
              (cons-tagged i next t (j ∷ order) d e (l t e)
                (cons-tagged j (t + 1) u order dj f (ground arith) w'))
      ]
    ]
  ]

  All-insert_by :
      (P : ℕ → Type 0) (i : ℕ) (order : List ℕ)
      → P i
      → All P order
      → All P (insert_by ty.fields i order)
  unfolding insert_by
  All-insert_by P i [] p ps = (p, tt)
  All-insert_by P i (j ∷ order) p (q, qs) = elim (Bool-cases (less_ℤ (tag_at j) (tag_at i))) [
    | inl e ↦ rw e (q, All-insert_by P i order p qs)
    | inr e ↦ rw e (p, (q, qs))
  ]

  All-sort_by : (P : ℕ → Type 0) (order : List ℕ) → All P order → All P (sort_by ty.fields order)
  unfolding sort_by
  All-sort_by P [] ps = tt
  All-sort_by P (i ∷ order) (p, ps) =
      All-insert_by P i (sort_by ty.fields order) p (All-sort_by P order ps)

  Holds-insert_by :
      (j i : ℕ) (order : List ℕ) → (i ≡ j) ⊎ Holds j order → Holds j (insert_by ty.fields i order)
  unfolding insert_by
  Holds-insert_by j i [] h = h
  Holds-insert_by j i (k ∷ order) h = elim (Bool-cases (less_ℤ (tag_at k) (tag_at i))) [
    | inl e ↦ rw e (elim h [
      | inl f ↦ inr (Holds-insert_by j i order (inl f))
      | inr (inl f) ↦ inl f
      | inr (inr f) ↦ inr (Holds-insert_by j i order (inr f))
    ])
    | inr e ↦ rw e h
  ]

  Holds-sort_by : (j : ℕ) (order : List ℕ) → Holds j order → Holds j (sort_by ty.fields order)
  unfolding sort_by
  Holds-sort_by j [] h = elim h [ ]
  Holds-sort_by j (i ∷ order) (inl f) = Holds-insert_by j i (sort_by ty.fields order) (inl f)
  Holds-sort_by j (i ∷ order) (inr h) =
      Holds-insert_by j i (sort_by ty.fields order) (inr (Holds-sort_by j order h))

  length-insert_by :
      (i : ℕ) (order : List ℕ) → length (insert_by ty.fields i order) ≡ suc (length order)
  unfolding insert_by
  length-insert_by i [] = refl
  length-insert_by i (j ∷ order) = elim (Bool-cases (less_ℤ (tag_at j) (tag_at i))) [
    | inl e ↦ rw e (ap suc (length-insert_by i order))
    | inr e ↦ rw e refl
  ]

  length-sort_by : (order : List ℕ) → length (sort_by ty.fields order) ≡ length order
  unfolding sort_by
  length-sort_by [] = refl
  length-sort_by (i ∷ order) =
      length-insert_by i (sort_by ty.fields order) ∙ ap suc (length-sort_by order)

  abbrev pub AreDistinct : List ℕ → Type 0
  AreDistinct [] = Unit
  AreDistinct (i ∷ order) = All (λ j. i ≢ j) order × AreDistinct order

  sort_by-IsSorted :
      (order : List ℕ)
      → All (IsTagged ty) order
      → AreDistinct order
      → IsSorted 0 (sort_by ty.fields order)
  unfolding sort_by
  sort_by-IsSorted [] ds o = tt
  sort_by-IsSorted (i ∷ order) (d, ds) (o, os) =
      insert_by-IsSorted i 0 (sort_by ty.fields order) d (All-sort_by (IsTagged ty) order ds)
        (sort_by-IsSorted order ds os) (λ t e. omega arith) (All-sort_by (λ j. i ≢ j) order o)

  -- The type is well formed when the order is sorted.
  pub sorted-IsWellFormed :
      All (IsTagged ty) ty.order
      → AreDistinct ty.order
      → length ty.order ≤ length ty.fields
      → ((j : ℕ) → j < length ty.fields → Holds j ty.order)
      → IsWellFormed (sproto_type (sorted ty))
  unfolding sorted sproto_type
  sorted-IsWellFormed ds o l h =
      let n = length-map_field ty.fields in
      (
        sort_by-IsSorted ty.order ds o,
        omega (arith, length-sort_by ty.order),
        λ j k. Holds-sort_by j ty.order (h j (omega arith)),
      )
