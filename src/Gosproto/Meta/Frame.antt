-- ===== src/Gosproto/Meta/Frame.antt =====
-- What making a type leaves as it is (gosproto/meta.go), if the nested calls do.
use cellorigin.Base.{
  ℕ, zero, suc, ◌<◌, ◌≡◌, ◌≢◌, refl, sym, ap, ◌∙◌, subst, arith, List, [], ◌∷◌, ◌++◌, none, some,
  length, get_elem?, get_elem?-append, set, inl, inr, Outcome, ok, err, panic, Bool-cases, ◌==◌,
}
use cellorigin.Base.Assoc.{
  lookup, nat_eq, lookup-insert_self, lookup-insert_keep, lookup-delete_keep,
}
use cellorigin.Gosproto.Error.{Error}
use cellorigin.Gosproto.Types.{Coder}
use cellorigin.Gosproto.Meta.{
  GoType, Chosen, plain, nested, MetaField, MetaType, MetaState, StructField, Locked, Loop, Ended,
  complete, stuck, init_failed, repeated, set_nested, set_enc_and_dec, parsed_field, init_field,
  choose, after_add, after_init, fields_loop, store_type, close_type, open_type, new_type,
  empty_type, sorted, put_field, add_field,
}
use cellorigin.Gosproto.Meta.Loops.{IsFilled, fields_loop-IsFilled, empty-IsFilled}

-- What is stored stays, and what `stMap` holds stays there.
abbrev pub Keeps : MetaState → MetaState → Type 0
Keeps s s' =
    ((i : ℕ) (ty : MetaType) → get_elem? s.types i ≡ some ty → get_elem? s'.types i ≡ some ty)
    × ((t a : ℕ) → lookup t s.st_map ≡ some a → lookup t s'.st_map ≡ some a)

pub Keeps-refl : (s : MetaState) → Keeps s s
Keeps-refl s = ((λ i ty h. h), λ t a h. h)

pub Keeps-trans : (s s' s'' : MetaState) → Keeps s s' → Keeps s' s'' → Keeps s s''
Keeps-trans s s' s'' (k, l) (k', l') = ((λ i ty h. k' i ty (k i ty h)), λ t a h. l' t a (l t a h))

-- Opening a type keeps the others, and closing it changes nothing but this type.
get_elem?-set_other :
    (types : List MetaType) (i a : ℕ) (ty x : MetaType)
    → i ≢ a
    → get_elem? types i ≡ some x
    → get_elem? (set types a ty) i ≡ some x
get_elem?-set_other [] i a ty x n h = absurd (cc)
get_elem?-set_other (y ∷ types) zero zero ty x n h = absurd (n refl)
get_elem?-set_other (y ∷ types) zero (suc a) ty x n h = h
get_elem?-set_other (y ∷ types) (suc i) zero ty x n h = h
get_elem?-set_other (y ∷ types) (suc i) (suc a) ty x n h =
    get_elem?-set_other types i a ty x (λ e. n (ap suc e)) h

get_elem?-set_self :
    (types : List MetaType) (a : ℕ) (ty x : MetaType)
    → get_elem? types a ≡ some x
    → get_elem? (set types a ty) a ≡ some ty
get_elem?-set_self [] a ty x h = absurd (cc)
get_elem?-set_self (y ∷ types) zero ty x h = refl
get_elem?-set_self (y ∷ types) (suc a) ty x h = get_elem?-set_self types a ty x h

get_elem?-append_keep :
    (types ys : List MetaType) (i : ℕ) (x : MetaType)
    → get_elem? types i ≡ some x
    → (get_elem? (types ++ ys) i ≡ some x) × (i < length types)
get_elem?-append_keep [] ys i x h = absurd (cc)
get_elem?-append_keep (y ∷ types) ys zero x h = (h, omega arith)
get_elem?-append_keep (y ∷ types) ys (suc i) x h =
    let (g, l) = get_elem?-append_keep types ys i x h in (g, omega arith)

store_type-Keeps :
    (a : ℕ) (s s' : MetaState) (ty : MetaType)
    → a ≡ length s.types
    → Keeps s s'
    → Keeps s (store_type a ty s')
unfolding store_type
store_type-Keeps a s s' ty n (k, l) = (
  (λ i x h.
      let (_, lt) = get_elem?-append_keep s.types [] i x h in
      get_elem?-set_other s'.types i a ty x (λ e. absurd (omega arith)) (k i x h)),
  l,
)

-- `t` is new, so only its own entry can go.
pub close_type-Keeps :
    (t a : ℕ) (s s' : MetaState) (ty : MetaType) (e : Ended)
    → a ≡ length s.types
    → lookup t s.st_map ≡ none
    → Keeps s s'
    → Keeps s (close_type t a s' ty e).0
unfolding close_type store_type
close_type-Keeps t a s s' ty complete n free k = store_type-Keeps a s s' (sorted ty) n k
close_type-Keeps t a s s' ty (init_failed e) n free k =
    let (k', l') = store_type-Keeps a s s' ty n k in
    (k', λ u b h. lookup-delete_keep t u b b s.st_map s'.st_map free h (k.1 u b h))
close_type-Keeps t a s s' ty (repeated e) n free k = store_type-Keeps a s s' ty n k
close_type-Keeps t a s s' ty stuck n free k = store_type-Keeps a s s' ty n k

pub close_type-made :
    (t a : ℕ) (s : MetaState) (ty : MetaType) (e : Ended) (x : MetaType) (a' : ℕ) (s' : MetaState)
    → get_elem? s.types a ≡ some x
    → lookup t s.st_map ≡ some a
    → (e ≡ complete → IsFilled ty)
    → close_type t a s ty e ≡ (s', ok a')
    → ((made : MetaType) × IsFilled made × (get_elem? s'.types a' ≡ some (sorted made)))
      × (lookup t s'.st_map ≡ some a')
unfolding close_type store_type
close_type-made t a s ty complete x a' s' g l w h =
    let same : a ≡ a' = let q = ap (λ r. r.1) h in cc in
    let state : store_type a (sorted ty) s ≡ s' = ap (λ r. r.0) h in
    (
      (
        ty,
        w refl,
        ap (λ s. get_elem? s.types a') (sym state)
            ∙ (ap (get_elem? (set s.types a (sorted ty))) (sym same)
                ∙ get_elem?-set_self s.types a (sorted ty) x g),
      ),
      ap (λ s. lookup t s.st_map) (sym state) ∙ (l ∙ ap some same),
    )
close_type-made t a s ty (init_failed e) x a' s' g l w h = let q = ap (λ r. r.1) h in absurd (cc)
close_type-made t a s ty (repeated e) x a' s' g l w h = let q = ap (λ r. r.1) h in absurd (cc)
close_type-made t a s ty stuck x a' s' g l w h = let q = ap (λ r. r.1) h in absurd (cc)

module _ (locked : Locked) (keeps : (t : ℕ) (s : MetaState) → Keeps s (locked t s).0) where
  set_nested-state :
      (sf : MetaField) (c : ℕ → Coder) (r : MetaState × Outcome Error ℕ)
      → (set_nested sf c r).0 ≡ r.0
  unfolding set_nested
  set_nested-state sf c (s, ok a) = refl
  set_nested-state sf c (s, err e) = refl
  set_nested-state sf c (s, panic) = refl

  set_enc_and_dec-Keeps :
      (sf : MetaField) (c : Outcome Error Chosen) (s : MetaState)
      → Keeps s (set_enc_and_dec locked sf c s).0
  unfolding set_enc_and_dec
  set_enc_and_dec-Keeps sf (ok (plain c)) s = Keeps-refl s
  set_enc_and_dec-Keeps sf (ok (nested c t)) s =
      subst (Keeps s) (sym (set_nested-state sf c (locked t s))) (keeps t s)
  set_enc_and_dec-Keeps sf (err e) s = Keeps-refl s
  set_enc_and_dec-Keeps sf panic s = Keeps-refl s

  parsed_field-Keeps :
      (t : GoType) (r : Outcome Error MetaField) (s : MetaState)
      → Keeps s (parsed_field locked t r s).0
  unfolding parsed_field
  parsed_field-Keeps t (ok sf) s = set_enc_and_dec-Keeps sf (choose t sf) s
  parsed_field-Keeps t (err e) s = Keeps-refl s
  parsed_field-Keeps t panic s = Keeps-refl s

  pub init_field-Keeps : (f : StructField) (s : MetaState) → Keeps s (init_field locked f s).0
  unfolding init_field
  init_field-Keeps f s = elim (Bool-cases (length f.tag_string == 0)) [
    | inl e ↦ rw e (Keeps-refl s)
    | inr e ↦ rw e (parsed_field-Keeps f.go_type _ s)
  ]

  after_add-Keeps :
      (next : MetaType → MetaState → Loop) (s : MetaState) (ty : MetaType)
      (r : Outcome Error MetaType)
      → ((ty' : MetaType) (s : MetaState) → Keeps s (next ty' s).state)
      → Keeps s (after_add next s ty r).state
  unfolding after_add
  after_add-Keeps next s ty (ok ty') k = k ty' s
  after_add-Keeps next s ty (err e) k = Keeps-refl s
  after_add-Keeps next s ty panic k = Keeps-refl s

  after_init-Keeps :
      (next : MetaType → MetaState → Loop) (ty : MetaType) (r : MetaState × Outcome Error MetaField)
      → ((ty' : MetaType) (s : MetaState) → Keeps s (next ty' s).state)
      → Keeps r.0 (after_init next ty r).state
  unfolding after_init
  after_init-Keeps next ty (s, ok sf) k =
      after_add-Keeps next s (put_field sf ty) (add_field sf sf.tag ty) k
  after_init-Keeps next ty (s, err e) k = Keeps-refl s
  after_init-Keeps next ty (s, panic) k = Keeps-refl s

  pub fields_loop-Keeps :
      (fs : List StructField) (ty : MetaType) (s : MetaState)
      → Keeps s (fields_loop locked fs ty s).state
  unfolding fields_loop
  fields_loop-Keeps [] ty s = Keeps-refl s
  fields_loop-Keeps (f ∷ fs) ty s =
      let next : MetaType → MetaState → Loop = λ ty' s'. fields_loop locked fs ty' s' in
      Keeps-trans s (init_field locked f s).0 _ (init_field-Keeps f s)
        (after_init-Keeps next ty (init_field locked f s) (λ ty' s'. fields_loop-Keeps fs ty' s'))

  pub new_type-Keeps :
      (fs : List StructField) (t : ℕ) (s : MetaState)
      → lookup t s.st_map ≡ none
      → Keeps s (new_type locked fs t s).0
  unfolding new_type open_type
  new_type-Keeps fs t s free =
      let opened = open_type t (length fs) s in
      let l = fields_loop locked fs (empty_type (length fs)) opened in
      close_type-Keeps t (length s.types) s l.state l.made l.ended refl free (
        Keeps-trans s opened l.state
          (
            (λ i ty h. (get_elem?-append_keep s.types (empty_type (length fs) ∷ []) i ty h).0),
            λ u a h. lookup-insert_keep t u (length s.types) a s.st_map free h,
          )
          (fields_loop-Keeps fs (empty_type (length fs)) opened))

  -- What a new type holds in the end, if there is no error.
  pub new_type-made :
      (fs : List StructField) (t a : ℕ) (s s' : MetaState)
      → lookup t s.st_map ≡ none
      → new_type locked fs t s ≡ (s', ok a)
      → ((made : MetaType) × IsFilled made × (get_elem? s'.types a ≡ some (sorted made)))
        × (lookup t s'.st_map ≡ some a)
  unfolding new_type open_type
  new_type-made fs t a s s' free h =
      let opened = open_type t (length fs) s in
      let l = fields_loop locked fs (empty_type (length fs)) opened in
      let (types, map) = fields_loop-Keeps fs (empty_type (length fs)) opened in
      close_type-made t (length s.types) l.state l.made l.ended (empty_type (length fs)) a s'
        (types (length s.types) (empty_type (length fs))
          (get_elem?-append s.types (empty_type (length fs)) []))
        (map t (length s.types) (lookup-insert_self t (length s.types) s.st_map))
        (λ e.
          fields_loop-IsFilled locked fs (empty_type (length fs)) opened
            (empty-IsFilled (length fs)) e)
        h
