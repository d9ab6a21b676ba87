-- ===== src/Gosproto/Meta/Made.antt =====
-- The types that `GetSprotoType` makes (gosproto/meta.go).
use cellorigin.Base.{
  ℕ, zero, suc, ◌≡◌, sym, ap, ◌∙◌, subst, List, none, some, length, get_elem?, inl, inr, ok, err,
  Option-cases,
}
use cellorigin.Base.Assoc.{lookup, nat_eq, lookup-insert_self}
use cellorigin.Gosproto.Error.{Error}
use cellorigin.Gosproto.Meta.{
  GoType, a_bool, a_string, other, number, ptr, slice, a_struct, MetaType, MetaState, StructField,
  repeated, fields_loop, store_type, close_type, open_type, new_type, cached, get_locked,
  get_sproto_type, empty_type, sorted, sproto_type,
}
use cellorigin.Gosproto.Meta.Loops.{IsFilled, HasShortTags, filled-IsWellFormed}
use cellorigin.Gosproto.Meta.Frame.{
  Keeps, Keeps-refl, fields_loop-Keeps, new_type-Keeps, new_type-made,
}
use cellorigin.Gosproto.RoundTrip.{IsWellFormed}

module _ (struct_fields : ℕ → List StructField) where
  pub get_locked-cached :
      (fuel t a : ℕ) (s : MetaState)
      → lookup t s.st_map ≡ some a
      → get_locked struct_fields (suc fuel) t s ≡ (s, ok a)
  unfolding get_locked
  get_locked-cached fuel t a s e =
      ap (λ o. cached o s (new_type (get_locked struct_fields fuel) (struct_fields t) t s)) e

  pub get_locked-new :
      (fuel t : ℕ) (s : MetaState)
      → lookup t s.st_map ≡ none
      → get_locked struct_fields (suc fuel) t s
        ≡ new_type (get_locked struct_fields fuel) (struct_fields t) t s
  unfolding get_locked
  get_locked-new fuel t s e =
      ap (λ o. cached o s (new_type (get_locked struct_fields fuel) (struct_fields t) t s)) e

  pub get_locked-Keeps :
      (fuel t : ℕ) (s : MetaState) → Keeps s (get_locked struct_fields fuel t s).0
  unfolding get_locked
  get_locked-Keeps zero t s = Keeps-refl s
  get_locked-Keeps (suc fuel) t s = elim (Option-cases (lookup t s.st_map)) [
    | inl e ↦
        subst (λ r. Keeps s r.0) (sym (get_locked-new fuel t s e))
          (new_type-Keeps (get_locked struct_fields fuel) (λ t s. get_locked-Keeps fuel t s)
            (struct_fields t) t s e)
    | inr (a, e) ↦ subst (λ r. Keeps s r.0) (sym (get_locked-cached fuel t a s e)) (Keeps-refl s)
  ]

  -- `GetSprotoType` of any type leaves the types that are stored, and what `stMap` has, as they are.
  pub get_sproto_type-Keeps :
      (fuel : ℕ) (t : GoType) (s : MetaState) → Keeps s (get_sproto_type struct_fields fuel t s).0
  unfolding get_sproto_type
  get_sproto_type-Keeps fuel (a_struct t) s = get_locked-Keeps fuel t s
  get_sproto_type-Keeps fuel a_bool s = Keeps-refl s
  get_sproto_type-Keeps fuel a_string s = Keeps-refl s
  get_sproto_type-Keeps fuel other s = Keeps-refl s
  get_sproto_type-Keeps fuel (number k) s = Keeps-refl s
  get_sproto_type-Keeps fuel (ptr t) s = Keeps-refl s
  get_sproto_type-Keeps fuel (slice t) s = Keeps-refl s

  get_locked-made :
      (fuel t a : ℕ) (s s' : MetaState)
      → lookup t s.st_map ≡ none
      → get_locked struct_fields fuel t s ≡ (s', ok a)
      → ((made : MetaType) × IsFilled made × (get_elem? s'.types a ≡ some (sorted made)))
        × (lookup t s'.st_map ≡ some a)
  unfolding get_locked
  get_locked-made zero t a s s' free h = let q = ap (λ r. r.1) h in absurd (cc)
  get_locked-made (suc fuel) t a s s' free h =
      new_type-made (get_locked struct_fields fuel) (get_locked-Keeps fuel) (struct_fields t) t a s
        s' free (sym (get_locked-new fuel t s free) ∙ h)

  -- A type that `GetSprotoType` makes, whose tags have 15 bits, is well formed: its order has the
  -- fields by ascending tags, and each tag leads back to its field.
  pub get_sproto_type-IsWellFormed :
      (fuel t a : ℕ) (s s' : MetaState) (ty : MetaType)
      → lookup t s.st_map ≡ none
      → get_sproto_type struct_fields fuel (a_struct t) s ≡ (s', ok a)
      → get_elem? s'.types a ≡ some ty
      → HasShortTags ty
      → IsWellFormed (sproto_type ty)
  unfolding get_sproto_type sorted
  get_sproto_type-IsWellFormed fuel t a s s' ty free h g short =
      let ((made, w, g'), _) = get_locked-made fuel t a s s' free h in
      let same : sorted made ≡ ty = cc in
      subst (λ ty. IsWellFormed (sproto_type ty)) same
        (filled-IsWellFormed made w (subst HasShortTags (sym same) short))

  -- After a type was made without an error, `GetSprotoType` gives the same type again.
  pub get_sproto_type-again :
      (fuel more t a : ℕ) (s s' : MetaState)
      → lookup t s.st_map ≡ none
      → get_sproto_type struct_fields fuel (a_struct t) s ≡ (s', ok a)
      → get_sproto_type struct_fields (suc more) (a_struct t) s' ≡ (s', ok a)
  unfolding get_sproto_type
  get_sproto_type-again fuel more t a s s' free h =
      get_locked-cached more t a s' (get_locked-made fuel t a s s' free h).1

  -- Where the loop over the fields of a new type ends with a repeated tag, `GetSprotoType` gives an
  -- error, and the next call gives the type, as far as it was made, without an error.
  pub get_sproto_type-repeated :
      (fuel more t : ℕ) (s : MetaState) (e : Error)
      → lookup t s.st_map ≡ none
      → (fields_loop
          (get_locked struct_fields fuel)
          (struct_fields t)
          (empty_type (length (struct_fields t)))
          (open_type t (length (struct_fields t)) s)).ended
        ≡ repeated e
      → let r = get_sproto_type struct_fields (suc fuel) (a_struct t) s in
        (r.1 ≡ err e)
        × (get_sproto_type struct_fields (suc more) (a_struct t) r.0 ≡ (r.0, ok (length s.types)))
  unfolding get_sproto_type new_type close_type store_type open_type
  get_sproto_type-repeated fuel more t s e free h =
      let empty = empty_type (length (struct_fields t)) in
      let opened = open_type t (length (struct_fields t)) s in
      let l = fields_loop (get_locked struct_fields fuel) (struct_fields t) empty opened in
      let a = length s.types in
      let failed = get_locked-new fuel t s free ∙ ap (close_type t a l.state l.made) h in
      let (_, map) =
        fields_loop-Keeps (get_locked struct_fields fuel) (get_locked-Keeps fuel) (struct_fields t)
          empty opened in
      (
        ap (λ r. r.1) failed,
        get_locked-cached more t a _
            (ap (λ r. lookup t r.0.st_map) failed ∙ map t a (lookup-insert_self t a s.st_map)),
      )
