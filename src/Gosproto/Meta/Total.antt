-- ===== src/Gosproto/Meta/Total.antt =====
-- `getSprotoTypeLocked` (gosproto/meta.go) makes each struct type once, so it ends.
use cellorigin.Base.{
  ℕ, zero, suc, ◌+◌, ◌<◌, ◌≤◌, ◌≡◌, refl, sym, ap, ◌∙◌, subst, arith, List, [], ◌∷◌, Option, none,
  some, ◌==◌, ltb, ltb→lt, length, inl, inr, Bool-cases, Option-cases, All, Outcome, ok, err, panic,
}
use cellorigin.Base.Assoc.{lookup, nat_eq, lookup-insert_self, lookup-insert_keep}
use cellorigin.Gosproto.Error.{Error, tag_repeated}
use cellorigin.Gosproto.Types.{Coder}
use cellorigin.Gosproto.Meta.{
  ℤ, pos, negsuc, GoType, a_struct, Chosen, plain, nested, MetaField, MetaType, MetaState,
  StructField, Locked, Loop, Ended, complete, stuck, init_failed, repeated, choose, set_nested,
  set_enc_and_dec, parsed_field, parse, split, new_field, init_field, add_field, put_field, put_tag,
  after_add, after_init, fields_loop, close_type, open_type, empty_type, new_type, get_locked,
  get_sproto_type,
}
use cellorigin.Gosproto.Meta.Frame.{Keeps, Keeps-refl, Keeps-trans, init_field-Keeps}
use cellorigin.Gosproto.Meta.Made.{get_locked-cached, get_locked-new, get_locked-Keeps}
use cellorigin.Gosproto.Meta.Choice.{
  Returns, RefsBelow, IsChosen, parse_fields-Returns, choose-IsChosen,
}

module _ (locked : Locked) (n : ℕ) where
  set_nested-Returns :
      (sf : MetaField) (c : ℕ → Coder) (r : MetaState × Outcome Error ℕ)
      → Returns r.1
      → Returns (set_nested sf c r).1
  unfolding set_nested
  set_nested-Returns sf c (s, ok a) h = tt
  set_nested-Returns sf c (s, err e) h = tt
  set_nested-Returns sf c (s, panic) h = h

  set_enc_and_dec-Returns :
      (sf : MetaField) (c : Outcome Error Chosen) (s : MetaState)
      → ((t : ℕ) → t < n → Returns (locked t s).1)
      → IsChosen n c
      → Returns (set_enc_and_dec locked sf c s).1
  unfolding set_enc_and_dec
  set_enc_and_dec-Returns sf (ok (plain c)) s g h = tt
  set_enc_and_dec-Returns sf (ok (nested c t)) s g h = set_nested-Returns sf c (locked t s) (g t h)
  set_enc_and_dec-Returns sf (err e) s g h = tt
  set_enc_and_dec-Returns sf panic s g h = h

  parsed_field-Returns :
      (t : GoType) (r : Outcome Error MetaField) (s : MetaState)
      → ((t : ℕ) → t < n → Returns (locked t s).1)
      → RefsBelow n t
      → Returns r
      → Returns (parsed_field locked t r s).1
  unfolding parsed_field
  parsed_field-Returns t (ok sf) s g b h =
      set_enc_and_dec-Returns sf (choose t sf) s g (choose-IsChosen n t sf b)
  parsed_field-Returns t (err e) s g b h = tt
  parsed_field-Returns t panic s g b h = h

  init_field-Returns :
      (f : StructField) (s : MetaState)
      → ((t : ℕ) → t < n → Returns (locked t s).1)
      → RefsBelow n f.go_type
      → Returns (init_field locked f s).1
  unfolding init_field parse
  init_field-Returns f s g b = elim (Bool-cases (length f.tag_string == 0)) [
    | inl e ↦ rw e tt
    | inr e ↦ rw e (
        parsed_field-Returns f.go_type (parse (new_field f (pos 0)) f.tag_string) s g b
          (parse_fields-Returns (new_field f (pos 0)) (split f.tag_string)))
  ]

  -- The nested calls return, in this state and in those that come from it.
  abbrev Serves : MetaState → Type 0
  Serves s = (s' : MetaState) → Keeps s s' → (t : ℕ) → t < n → Returns (locked t s').1

  abbrev Ends : Ended → Type 0
  Ends stuck = ⊥
  Ends _ = Unit

  add_field-Returns : (sf : MetaField) (z : ℤ) (ty : MetaType) → Returns (add_field sf z ty)
  unfolding add_field
  add_field-Returns sf (negsuc k) ty = tt
  add_field-Returns sf (pos t) ty = elim (Option-cases (lookup t ty.tag_map)) [
    | inl e ↦
        subst Returns
          (sym (
            ap
              (λ o. elim o [
                | some j ↦ err tag_repeated
                | none ↦ ok (put_tag t (length ty.fields) (put_field sf ty))
              ])
              e))
          tt
    | inr (j, e) ↦
        subst Returns
          (sym (
            ap
              (λ o. elim o [
                | some j ↦ err tag_repeated
                | none ↦ ok (put_tag t (length ty.fields) (put_field sf ty))
              ])
              e))
          tt
  ]

  after_add-Ends :
      (next : MetaType → MetaState → Loop) (s : MetaState) (ty : MetaType)
      (r : Outcome Error MetaType)
      → Returns r
      → ((ty' : MetaType) → Ends (next ty' s).ended)
      → Ends (after_add next s ty r).ended
  unfolding after_add
  after_add-Ends next s ty (ok ty') h k = k ty'
  after_add-Ends next s ty (err e) h k = tt
  after_add-Ends next s ty panic h k = h

  after_init-Ends :
      (next : MetaType → MetaState → Loop) (ty : MetaType) (r : MetaState × Outcome Error MetaField)
      → Returns r.1
      → ((ty' : MetaType) → Ends (next ty' r.0).ended)
      → Ends (after_init next ty r).ended
  unfolding after_init
  after_init-Ends next ty (s, ok sf) h k =
      after_add-Ends next s (put_field sf ty) (add_field sf sf.tag ty)
        (add_field-Returns sf sf.tag ty) k
  after_init-Ends next ty (s, err e) h k = tt
  after_init-Ends next ty (s, panic) h k = h

  module _ (keeps : (t : ℕ) (s : MetaState) → Keeps s (locked t s).0) where
    fields_loop-Ends :
        (fs : List StructField) (ty : MetaType) (s : MetaState)
        → Serves s
        → All (λ f. RefsBelow n f.go_type) fs
        → Ends (fields_loop locked fs ty s).ended
    unfolding fields_loop
    fields_loop-Ends [] ty s g b = tt
    fields_loop-Ends (f ∷ fs) ty s g (b, bs) =
        let next : MetaType → MetaState → Loop = λ ty' s'. fields_loop locked fs ty' s' in
        let s1 = (init_field locked f s).0 in
        after_init-Ends next ty (init_field locked f s)
          (init_field-Returns f s (g s (Keeps-refl s)) b)
          (λ ty'.
            fields_loop-Ends fs ty' s1
              (λ s' k. g s' (Keeps-trans s s1 s' (init_field-Keeps locked keeps f s) k)) bs)

    close_type-Returns :
        (t a : ℕ) (s : MetaState) (ty : MetaType) (e : Ended)
        → Ends e
        → Returns (close_type t a s ty e).1
    unfolding close_type
    close_type-Returns t a s ty complete h = tt
    close_type-Returns t a s ty (init_failed e) h = tt
    close_type-Returns t a s ty (repeated e) h = tt
    close_type-Returns t a s ty stuck h = h

    new_type-Returns :
        (fs : List StructField) (t : ℕ) (s : MetaState)
        → Serves (open_type t (length fs) s)
        → All (λ f. RefsBelow n f.go_type) fs
        → Returns (new_type locked fs t s).1
    unfolding new_type
    new_type-Returns fs t s g b =
        let l = fields_loop locked fs (empty_type (length fs)) (open_type t (length fs) s) in
        close_type-Returns t (length s.types) l.state l.made l.ended
          (fields_loop-Ends fs (empty_type (length fs)) (open_type t (length fs) s) g b)

-- How many of the first struct types `stMap` does not have.
abbrev missing : Option ℕ → ℕ
missing none = 1
missing (some a) = 0

abbrev unknown : ℕ → List (ℕ × ℕ) → ℕ
unknown zero m = 0
unknown (suc n) m = missing (lookup n m) + unknown n m

abbrev Grows : List (ℕ × ℕ) → List (ℕ × ℕ) → Type 0
Grows m m' = (t a : ℕ) → lookup t m ≡ some a → lookup t m' ≡ some a

missing-le : (o o' : Option ℕ) → ((a : ℕ) → o ≡ some a → o' ≡ some a) → missing o' ≤ missing o
missing-le none none g = omega arith
missing-le none (some a) g = omega arith
missing-le (some a) o' g = let e = g a refl in rw e (omega arith)

unknown-le : (n : ℕ) (m m' : List (ℕ × ℕ)) → Grows m m' → unknown n m' ≤ unknown n m
unknown-le zero m m' g = omega arith
unknown-le (suc n) m m' g =
    omega (arith, unknown-le n m m' g, missing-le (lookup n m) (lookup n m') (g n))

unknown-lt :
    (n t a : ℕ) (m m' : List (ℕ × ℕ))
    → Grows m m'
    → t < n
    → lookup t m ≡ none
    → lookup t m' ≡ some a
    → unknown n m' < unknown n m
unknown-lt zero t a m m' g l e f = absurd (omega arith)
unknown-lt (suc n) t a m m' g l e f = elim (Bool-cases (ltb t n)) [
  | inl b ↦ omega (
    arith,
    unknown-lt n t a m m' g (ltb→lt t n b) e f,
    missing-le (lookup n m) (lookup n m') (g n),
  )
  | inr b ↦
      let same : t ≡ n = ground arith in
      let e' : missing (lookup n m) ≡ 1 =
        ap (λ t. missing (lookup t m)) (sym same) ∙ ap missing e in
      let f' : missing (lookup n m') ≡ 0 =
        ap (λ t. missing (lookup t m')) (sym same) ∙ ap missing f in
      omega (arith, unknown-le n m m' g)
]

unknown-bound : (n : ℕ) (m : List (ℕ × ℕ)) → unknown n m ≤ n
unknown-bound zero m = omega arith
unknown-bound (suc n) m = elim (Option-cases (lookup n m)) [
  | inl e ↦ let k = ap missing e in omega (arith, unknown-bound n m)
  | inr (a, e) ↦ let k = ap missing e in omega (arith, unknown-bound n m)
]

module _ (struct_fields : ℕ → List StructField) (n : ℕ)
    (below : (t : ℕ) → t < n → All (λ f. RefsBelow n f.go_type) (struct_fields t)) where
  opened-lt :
      (t : ℕ) (s s' : MetaState)
      → t < n
      → lookup t s.st_map ≡ none
      → Keeps (open_type t (length (struct_fields t)) s) s'
      → unknown n s'.st_map < unknown n s.st_map
  unfolding open_type
  opened-lt t s s' l e (_, k) =
      let a = length s.types in
      unknown-lt n t a s.st_map s'.st_map (λ u b h. k u b (lookup-insert_keep t u a b s.st_map e h))
        l e (k t a (lookup-insert_self t a s.st_map))

  get_locked-Returns :
      (fuel t : ℕ) (s : MetaState)
      → t < n
      → unknown n s.st_map < fuel
      → Returns (get_locked struct_fields fuel t s).1
  get_locked-Returns zero t s l u = absurd (omega arith)
  get_locked-Returns (suc fuel) t s l u = elim (Option-cases (lookup t s.st_map)) [
    | inr (a, e) ↦ subst (λ r. Returns r.1) (sym (get_locked-cached struct_fields fuel t a s e)) tt
    | inl e ↦
        subst (λ r. Returns r.1) (sym (get_locked-new struct_fields fuel t s e))
          (new_type-Returns (get_locked struct_fields fuel) n (get_locked-Keeps struct_fields fuel)
            (struct_fields t) t s
            (λ s' k t' l'. get_locked-Returns fuel t' s' l' (omega (arith, opened-lt t s s' l e k)))
            (below t l))
  ]

  -- Where the struct types have numbers below `n` and lead to such types only, `GetSprotoType` on one
  -- of them returns, with a type or with an error, in every state; fuel above `n` is enough.
  pub get_sproto_type-Returns :
      (fuel t : ℕ) (s : MetaState)
      → t < n
      → n < fuel
      → Returns (get_sproto_type struct_fields fuel (a_struct t) s).1
  unfolding get_sproto_type
  get_sproto_type-Returns fuel t s l u =
      get_locked-Returns fuel t s l (omega (arith, unknown-bound n s.st_map))
