-- ===== src/Gosproto/Meta/Choice.antt =====
-- The reading of a tag string and the choice of the coders (gosproto/meta.go) never panic.
use cellorigin.Base.{
  ℕ, ◌<◌, List, [], ◌∷◌, Option, none, some, Bool, true, false, if◌then◌else◌, inl, inr, Bool-cases,
  Outcome, ok, err, panic, ◌>>=◌,
}
use cellorigin.Base.Assoc.{nat_eq}
use cellorigin.Gosproto.Error.{Error, bad_tag}
use cellorigin.Gosproto.Types.{
  int8, int16, int32, int64, int, uint8, uint16, uint32, uint64, uint, bytes, integer_slice,
}
use cellorigin.Gosproto.Meta.{
  ℤ, GoType, a_bool, a_string, other, number, a_struct, ptr, slice, Chosen, plain, nested,
  MetaField, same_text, assert_wire, choose, choose_slice, parse_fields, known_wire, atoi,
  wire_bytes_name, wire_varint_name, parse_options,
}

abbrev pub Returns : {A : Type 0} → Outcome Error A → Type 0
Returns panic = ⊥
Returns _ = Unit

-- The struct types that a type leads to have numbers below `n`.
abbrev pub RefsBelow : ℕ → GoType → Type 0
RefsBelow n (a_struct t) = t < n
RefsBelow n (ptr t) = RefsBelow n t
RefsBelow n (slice t) = RefsBelow n t
RefsBelow n _ = Unit

abbrev pub IsChosen : ℕ → Outcome Error Chosen → Type 0
IsChosen n (ok (nested c t)) = t < n
IsChosen n panic = ⊥
IsChosen n _ = Unit

assert_wire-then :
    (n : ℕ) (sf : MetaField) (wire : List ℕ) (array : Bool) (c : Chosen)
    → IsChosen n (ok c)
    → IsChosen n (assert_wire sf wire array >>= λ u. ok c)
unfolding assert_wire
assert_wire-then n sf wire array c h = elim (Bool-cases (same_text sf.wire wire)) [
  | inl e ↦ elim (Bool-cases sf.array) [
    | inl f ↦ elim (Bool-cases array) [ inl g ↦ rw (e, f, g) h | inr g ↦ rw (e, f, g) tt ]
    | inr f ↦ elim (Bool-cases array) [ inl g ↦ rw (e, f, g) tt | inr g ↦ rw (e, f, g) h ]
  ]
  | inr e ↦ rw e tt
]

if-IsChosen :
    (n : ℕ) (b : Bool) (x y : Outcome Error Chosen)
    → IsChosen n x
    → IsChosen n y
    → IsChosen n (if b then x else y)
if-IsChosen n true x y h k = h
if-IsChosen n false x y h k = k

choose_slice-IsChosen :
    (n : ℕ) (t : GoType) (sf : MetaField) → RefsBelow n t → IsChosen n (choose_slice t sf)
unfolding choose_slice
choose_slice-IsChosen n a_bool sf h = assert_wire-then n sf _ true _ tt
choose_slice-IsChosen n (number uint8) sf h =
    if-IsChosen n (same_text sf.wire wire_bytes_name) _ _
      (assert_wire-then n sf wire_bytes_name false (plain bytes) tt)
      (assert_wire-then n sf wire_varint_name true (plain (integer_slice uint8)) tt)
choose_slice-IsChosen n (number int8) sf h = assert_wire-then n sf _ true _ tt
choose_slice-IsChosen n (number int16) sf h = assert_wire-then n sf _ true _ tt
choose_slice-IsChosen n (number int32) sf h = assert_wire-then n sf _ true _ tt
choose_slice-IsChosen n (number int64) sf h = assert_wire-then n sf _ true _ tt
choose_slice-IsChosen n (number int) sf h = assert_wire-then n sf _ true _ tt
choose_slice-IsChosen n (number uint16) sf h = assert_wire-then n sf _ true _ tt
choose_slice-IsChosen n (number uint32) sf h = assert_wire-then n sf _ true _ tt
choose_slice-IsChosen n (number uint64) sf h = assert_wire-then n sf _ true _ tt
choose_slice-IsChosen n (number uint) sf h = assert_wire-then n sf _ true _ tt
choose_slice-IsChosen n a_string sf h = tt
choose_slice-IsChosen n (ptr (a_struct t)) sf h = assert_wire-then n sf _ true _ h
choose_slice-IsChosen n (ptr a_bool) sf h = tt
choose_slice-IsChosen n (ptr a_string) sf h = tt
choose_slice-IsChosen n (ptr other) sf h = tt
choose_slice-IsChosen n (ptr (number k)) sf h = tt
choose_slice-IsChosen n (ptr (ptr t)) sf h = tt
choose_slice-IsChosen n (ptr (slice t)) sf h = tt
choose_slice-IsChosen n other sf h = tt
choose_slice-IsChosen n (a_struct t) sf h = tt
choose_slice-IsChosen n (slice t) sf h = tt

pub choose-IsChosen :
    (n : ℕ) (t : GoType) (sf : MetaField) → RefsBelow n t → IsChosen n (choose t sf)
unfolding choose
choose-IsChosen n a_bool sf h = assert_wire-then n sf _ false _ tt
choose-IsChosen n (number k) sf h = assert_wire-then n sf _ false _ tt
choose-IsChosen n a_string sf h = tt
choose-IsChosen n (ptr (a_struct t)) sf h = assert_wire-then n sf _ false _ h
choose-IsChosen n (ptr a_bool) sf h = tt
choose-IsChosen n (ptr a_string) sf h = tt
choose-IsChosen n (ptr other) sf h = tt
choose-IsChosen n (ptr (number k)) sf h = tt
choose-IsChosen n (ptr (ptr t)) sf h = tt
choose-IsChosen n (ptr (slice t)) sf h = tt
choose-IsChosen n (slice t) sf h = choose_slice-IsChosen n t sf h
choose-IsChosen n other sf h = tt
choose-IsChosen n (a_struct t) sf h = tt

if-Returns :
    {A : Type 0}
    → (b : Bool) (x y : Outcome Error A) → Returns x
    → Returns y
    → Returns (if b then x else y)
if-Returns true x y h k = h
if-Returns false x y h k = k

tag-Returns :
    (made : ℤ → MetaField) (o : Option ℤ)
    → Returns (elim o [ none ↦ err bad_tag | some t ↦ ok (made t) ])
tag-Returns made none = tt
tag-Returns made (some t) = tt

pub parse_fields-Returns :
    (sf : MetaField) (fields : List (List ℕ)) → Returns (parse_fields sf fields)
unfolding parse_fields
parse_fields-Returns sf [] = tt
parse_fields-Returns sf (wire ∷ []) = tt
parse_fields-Returns sf (wire ∷ (tag ∷ options)) =
    if-Returns (known_wire wire) _ _
      (tag-Returns (λ t. parse_options options (record sf { wire = wire; tag = t })) (atoi tag)) tt
