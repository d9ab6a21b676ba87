-- ===== src/Gosproto/Meta.antt =====
-- gosproto/meta.go: the types with their fields and coders, made from Go's struct types with their
-- tag strings. A type under construction is only reached through its pointer until the function
-- returns, so it stands in the store from then on. A tag is an int of Go.
pub mod Sorted
pub mod Loops
pub mod Frame
pub mod Made
pub mod Choice
pub mod Total
use cellorigin.Base.{
  ℕ, zero, suc, ◌+◌, ◌-◌, ◌*◌, ◌^◌, List, [], ◌∷◌, ◌++◌, Option, none, some, Bool, true, false, ltb,
  leb, ◌==◌, ◌&&◌, ◌||◌, if◌then◌else◌, length, take, drop, get_elem?, set, map, Outcome, ok, err,
  panic, ◌>>=◌,
}
use cellorigin.Base.Assoc.{lookup, insert, delete, nat_eq}
use cellorigin.Gosproto.Error.{
  Error, few_fields, unknown_wire, bad_tag, other_wire, other_array, no_coders, tag_repeated,
  not_struct,
}
use cellorigin.Gosproto.Types.{
  IntKind, uint8, Coder, bool, string, bool_slice, bytes, string_slice, unset, integer,
  integer_slice, struct, struct_slice, SprotoField, SprotoType,
}

pub data ℤ : Type 0 where
  pos negsuc : ℕ → ℤ

-- `a < b`
unfoldable pub less_ℤ : ℤ → ℤ → Bool
less_ℤ (pos a) (pos b) = ltb a b
less_ℤ (pos a) (negsuc b) = false
less_ℤ (negsuc a) (pos b) = true
less_ℤ (negsuc a) (negsuc b) = ltb b a

unfoldable pub same_text : List ℕ → List ℕ → Bool
same_text [] [] = true
same_text (a ∷ as') (b ∷ bs) = (a == b) && same_text as' bs
same_text _ _ = false

-- `strings.Split(s, ",")`, with the field that is being read.
unfoldable pub split_from : List ℕ → List ℕ → List (List ℕ)
split_from [] acc = acc ∷ []
split_from (c ∷ s) acc =
    let rest = split_from s [] in
    let more = split_from s (acc ++ c ∷ []) in if c == b',' then acc ∷ rest else more

unfoldable pub split : List ℕ → List (List ℕ)
unfolding split_from
split s = split_from s []

-- The digits of `strconv.Atoi`.
unfoldable pub digits : List ℕ → ℕ → Option ℕ
digits [] acc = some acc
digits (c ∷ s) acc =
    let rest = digits s (acc * 10 + (c - b'0')) in if leb b'0' c && leb c b'9' then rest else none

unfoldable pub signed : Bool → Option ℕ → Option ℤ
signed minus none = none
signed true (some zero) = some (pos zero)
signed true (some (suc n)) = if leb (suc n) (2 ^ 63) then some (negsuc n) else none
signed false (some n) = if ltb n (2 ^ 63) then some (pos n) else none

unfoldable pub digits_of : List ℕ → Option ℕ
unfolding digits
digits_of [] = none
digits_of (c ∷ s) = digits (c ∷ s) 0

-- `strconv.Atoi`: an optional sign and digits, in the range of int.
unfoldable pub atoi : List ℕ → Option ℤ
unfolding digits_of signed
atoi [] = none
atoi (c ∷ s) =
    if c == b'-'
    then signed true (digits_of s)
    else if c == b'+'
    then signed false (digits_of s)
    else signed false (digits_of (c ∷ s))

abbrev pub wire_varint_name : List ℕ
wire_varint_name = b'i' ∷ b'n' ∷ b't' ∷ b'e' ∷ b'g' ∷ b'e' ∷ b'r' ∷ []

abbrev pub wire_boolean_name : List ℕ
wire_boolean_name = b'b' ∷ b'o' ∷ b'o' ∷ b'l' ∷ b'e' ∷ b'a' ∷ b'n' ∷ []

abbrev pub wire_bytes_name : List ℕ
wire_bytes_name = b's' ∷ b't' ∷ b'r' ∷ b'i' ∷ b'n' ∷ b'g' ∷ []

abbrev pub wire_struct_name : List ℕ
wire_struct_name = b's' ∷ b't' ∷ b'r' ∷ b'u' ∷ b'c' ∷ b't' ∷ []

abbrev pub array_name : List ℕ
array_name = b'a' ∷ b'r' ∷ b'r' ∷ b'a' ∷ b'y' ∷ []

abbrev pub name_prefix : List ℕ
name_prefix = b'n' ∷ b'a' ∷ b'm' ∷ b'e' ∷ b'=' ∷ []

-- A field as `SprotoField` of the source has it; `st` is in the coder.
pub record MetaField : Type 0 where
  pub name : List ℕ
  pub orig_name : List ℕ
  pub wire : List ℕ
  pub tag : ℤ
  pub array : Bool
  pub coder : Coder

unfoldable pub known_wire : List ℕ → Bool
unfolding same_text
known_wire wire =
    same_text wire wire_varint_name
    || (same_text wire wire_boolean_name
        || (same_text wire wire_bytes_name || same_text wire wire_struct_name))

-- The loop of `parse` over the fields from the third on.
unfoldable pub parse_options : List (List ℕ) → MetaField → MetaField
unfolding same_text
parse_options [] sf = sf
parse_options (f ∷ fields) sf = parse_options fields (
    if same_text f array_name
    then record sf { array = true }
    else if same_text (take (length name_prefix) f) name_prefix
    then record sf { orig_name = drop (length name_prefix) f }
    else sf)

unfoldable pub parse_fields : MetaField → List (List ℕ) → Outcome Error MetaField
unfolding known_wire atoi parse_options
parse_fields sf (wire ∷ tag ∷ options) =
    if known_wire wire
    then elim (atoi tag) [
      | none ↦ err bad_tag
      | some t ↦ ok (parse_options options (record sf { wire = wire; tag = t }))
    ]
    else err unknown_wire
parse_fields sf _ = err few_fields

unfoldable pub parse : MetaField → List ℕ → Outcome Error MetaField
unfolding parse_fields split
parse sf s = parse_fields sf (split s)

unfoldable pub assert_wire : MetaField → List ℕ → Bool → Outcome Error (Unit {0})
unfolding same_text
assert_wire sf expected_wire expected_array =
    if same_text sf.wire expected_wire
    then (if sf.array
        then (if expected_array then ok tt else err other_array)
        else (if expected_array then err other_array else ok tt))
    else err other_wire

-- The types of reflect that the switch of `setEncAndDec` tells apart.
pub data GoType : Type 0 where
  a_bool a_string other : GoType
  number : IntKind → GoType
  a_struct : ℕ → GoType
  ptr slice : GoType → GoType

-- The coders of a field, or those for a struct type that is looked up then.
pub data Chosen : Type 0 where
  plain : Coder → Chosen
  nested : (ℕ → Coder) → ℕ → Chosen

-- The switch of `setEncAndDec`. The errors of `assertWire` for strings are dropped.
unfoldable pub choose_slice : GoType → MetaField → Outcome Error Chosen
unfolding assert_wire
choose_slice a_bool sf = assert_wire sf wire_boolean_name true >>= λ u. ok (plain bool_slice)
choose_slice (number uint8) sf =
    if same_text sf.wire wire_bytes_name
    then (assert_wire sf wire_bytes_name false >>= λ u. ok (plain bytes))
    else (assert_wire sf wire_varint_name true >>= λ u. ok (plain (integer_slice uint8)))
choose_slice (number k) sf =
    assert_wire sf wire_varint_name true >>= λ u. ok (plain (integer_slice k))
choose_slice a_string sf = ok (plain string_slice)
choose_slice (ptr (a_struct t)) sf =
    assert_wire sf wire_struct_name true >>= λ u. ok (nested struct_slice t)
choose_slice _ sf = err no_coders

unfoldable pub choose : GoType → MetaField → Outcome Error Chosen
unfolding assert_wire choose_slice
choose a_bool sf = assert_wire sf wire_boolean_name false >>= λ u. ok (plain bool)
choose (number k) sf = assert_wire sf wire_varint_name false >>= λ u. ok (plain (integer k))
choose a_string sf = ok (plain string)
choose (ptr (a_struct t)) sf = assert_wire sf wire_struct_name false >>= λ u. ok (nested struct t)
choose (slice t) sf = choose_slice t sf
choose _ sf = err no_coders

-- A field of a struct type, with what `f.Tag.Get("sproto")` gives.
pub record StructField : Type 0 where
  pub name : List ℕ
  pub go_type : GoType
  pub tag_string : List ℕ

-- `SprotoType`: the fields and the places of `order` that are set, of slices of a length `size`.
pub record MetaType : Type 0 where
  pub fields : List MetaField
  pub order : List ℕ
  pub tag_map : List (ℕ × ℕ)
  pub size : ℕ

-- `stMap`, and the types by their pointers.
pub record MetaState : Type 0 where
  pub types : List MetaType
  pub st_map : List (ℕ × ℕ)

-- `getSprotoTypeLocked` for a nested type.
abbrev pub Locked : Type 0
Locked = ℕ → MetaState → MetaState × Outcome Error ℕ

unfoldable pub set_coder : MetaField → Coder → MetaField
set_coder sf c = record sf { coder = c }

unfoldable pub set_nested :
    MetaField → (ℕ → Coder) → MetaState × Outcome Error ℕ → MetaState × Outcome Error MetaField
unfolding set_coder
set_nested sf c (s, ok st) = (s, ok (set_coder sf (c st)))
set_nested sf c (s, err e) = (s, err e)
set_nested sf c (s, panic) = (s, panic)

unfoldable pub set_enc_and_dec :
    Locked → MetaField → Outcome Error Chosen → MetaState → MetaState × Outcome Error MetaField
unfolding set_nested set_coder
set_enc_and_dec locked sf (ok (plain c)) s = (s, ok (set_coder sf c))
set_enc_and_dec locked sf (ok (nested c t)) s = set_nested sf c (locked t s)
set_enc_and_dec locked sf (err e) s = (s, err e)
set_enc_and_dec locked sf panic s = (s, panic)

unfoldable pub parsed_field :
    Locked → GoType → Outcome Error MetaField → MetaState → MetaState × Outcome Error MetaField
unfolding set_enc_and_dec choose
parsed_field locked t (ok sf) s = set_enc_and_dec locked sf (choose t sf) s
parsed_field locked t (err e) s = (s, err e)
parsed_field locked t panic s = (s, panic)

-- A field of which nothing but the name is set.
unfoldable pub new_field : StructField → ℤ → MetaField
new_field f tag = record {
  name = f.name;
  orig_name = f.name;
  wire = [];
  tag = tag;
  array = false;
  coder = unset;
}

unfoldable pub init_field : Locked → StructField → MetaState → MetaState × Outcome Error MetaField
unfolding parsed_field parse new_field
init_field locked f s =
    if length f.tag_string == 0
    then (s, ok (new_field f (negsuc 0)))
    else parsed_field locked f.go_type (parse (new_field f (pos 0)) f.tag_string) s

-- `st.Fields[i] = sf`, `st.order[i] = i`, and the tag where it is not negative.
unfoldable pub put_field : MetaField → MetaType → MetaType
put_field sf ty = record ty {
  fields = ty.fields ++ sf ∷ [];
  order = ty.order ++ length ty.fields ∷ [];
}

unfoldable pub put_tag : ℕ → ℕ → MetaType → MetaType
put_tag t i ty = record ty { tag_map = insert t i ty.tag_map }

-- A round of the loop behind `init`: a tag that is there already is an error.
unfoldable pub add_field : MetaField → ℤ → MetaType → Outcome Error MetaType
unfolding put_field put_tag
add_field sf (negsuc n) ty = ok (put_field sf ty)
add_field sf (pos t) ty = elim (lookup t ty.tag_map) [
  | some j ↦ err tag_repeated
  | none ↦ ok (put_tag t (length ty.fields) (put_field sf ty))
]

-- The order, by insertion: `Less` compares the tags.
unfoldable pub tag_of : List MetaField → ℕ → ℤ
tag_of fields i = elim (get_elem? fields i) [ none ↦ pos 0 | some sf ↦ sf.tag ]

unfoldable pub insert_by : List MetaField → ℕ → List ℕ → List ℕ
unfolding less_ℤ tag_of
insert_by fields i [] = i ∷ []
insert_by fields i (j ∷ order) =
    let rest = insert_by fields i order in
    if less_ℤ (tag_of fields j) (tag_of fields i) then j ∷ rest else i ∷ (j ∷ order)

unfoldable pub sort_by : List MetaField → List ℕ → List ℕ
unfolding insert_by
sort_by fields [] = []
sort_by fields (i ∷ order) = insert_by fields i (sort_by fields order)

unfoldable pub sorted : MetaType → MetaType
unfolding sort_by
sorted ty = record ty { order = sort_by ty.fields ty.order }

-- How the loop ends: an error of `init` or of a repeated tag.
pub data Ended : Type 0 where
  complete stuck : Ended
  init_failed repeated : Error → Ended

pub record Loop : Type 0 where
  pub state : MetaState
  pub made : MetaType
  pub ended : Ended

unfoldable pub after_add :
    (MetaType → MetaState → Loop) → MetaState → MetaType → Outcome Error MetaType → Loop
after_add next s ty (ok ty') = next ty' s
after_add next s ty (err e) = record { state = s; made = ty; ended = repeated e }
after_add next s ty panic = record { state = s; made = ty; ended = stuck }

unfoldable pub after_init :
    (MetaType → MetaState → Loop) → MetaType → MetaState × Outcome Error MetaField → Loop
unfolding after_add add_field put_field
after_init next ty (s, ok sf) = after_add next s (put_field sf ty) (add_field sf sf.tag ty)
after_init next ty (s, err e) = record { state = s; made = ty; ended = init_failed e }
after_init next ty (s, panic) = record { state = s; made = ty; ended = stuck }

-- The loop of `getSprotoTypeLocked` over the fields that are left.
unfoldable pub fields_loop : Locked → List StructField → MetaType → MetaState → Loop
unfolding after_init init_field
fields_loop locked [] ty s = record { state = s; made = ty; ended = complete }
fields_loop locked (f ∷ fs) ty s =
    after_init (λ ty' s'. fields_loop locked fs ty' s') ty (init_field locked f s)

-- The type is stored under its pointer `a`. Only an error of `init` takes `t` out of `stMap`.
unfoldable pub store_type : ℕ → MetaType → MetaState → MetaState
store_type a ty s = record s { types = set s.types a ty }

unfoldable pub close_type : ℕ → ℕ → MetaState → MetaType → Ended → MetaState × Outcome Error ℕ
unfolding store_type sorted
close_type t a s ty complete = (store_type a (sorted ty) s, ok a)
close_type t a s ty (init_failed e) =
    let s' = store_type a ty s in (record s' { st_map = delete t s'.st_map }, err e)
close_type t a s ty (repeated e) = (store_type a ty s, err e)
close_type t a s ty stuck = (store_type a ty s, panic)

abbrev pub empty_type : ℕ → MetaType
empty_type n = record { fields = []; order = []; tag_map = []; size = n }

-- `st := new(SprotoType)`, `stMap[t] = st`
unfoldable pub open_type : ℕ → ℕ → MetaState → MetaState
open_type t n s = record {
  types = s.types ++ empty_type n ∷ [];
  st_map = insert t (length s.types) s.st_map;
}

unfoldable pub new_type : Locked → List StructField → ℕ → MetaState → MetaState × Outcome Error ℕ
unfolding open_type fields_loop close_type
new_type locked fs t s =
    let l = fields_loop locked fs (empty_type (length fs)) (open_type t (length fs) s) in
    close_type t (length s.types) l.state l.made l.ended

-- A type that `stMap` has is not made again.
unfoldable pub cached :
    Option ℕ → MetaState → MetaState × Outcome Error ℕ → MetaState × Outcome Error ℕ
cached (some a) s r = (s, ok a)
cached none s r = r

-- `reflect` gives the fields of a struct type. A nested type is not in `stMap` yet, so the fuel
-- bounds the number of types; without fuel it panics.
module _ (struct_fields : ℕ → List StructField) where
  unfoldable pub get_locked : ℕ → Locked
  unfolding new_type cached
  get_locked zero t s = (s, panic)
  get_locked (suc fuel) t s =
      cached (lookup t s.st_map) s (new_type (get_locked fuel) (struct_fields t) t s)

  -- `GetSprotoType`, which runs under the lock.
  unfoldable pub get_sproto_type : ℕ → GoType → MetaState → MetaState × Outcome Error ℕ
  unfolding get_locked
  get_sproto_type fuel (a_struct t) s = get_locked fuel t s
  get_sproto_type fuel _ s = (s, err not_struct)

-- A type as the coders read it: they pass over a negative tag.
unfoldable pub field_of : MetaField → SprotoField
field_of sf = record {
  name = sf.name;
  tag = elim sf.tag [ pos t ↦ some t | negsuc n ↦ none ];
  coder = sf.coder;
}

unfoldable pub sproto_type : MetaType → SprotoType
unfolding field_of
sproto_type ty = record { fields = map field_of ty.fields; tag_map = ty.tag_map; order = ty.order }
