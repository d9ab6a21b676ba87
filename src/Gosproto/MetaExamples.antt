-- ===== src/Gosproto/MetaExamples.antt =====
-- Struct types as gosproto/sproto_test.go has them, and one that repeats a tag.
use cellorigin.Base.{
  All, ℕ, zero, suc, ◌^◌, ◌<◌, ◌≡◌, refl, ap, ◌∙◌, arith, List, [], ◌∷◌, ◌++◌, Option, none, some,
  true, false, ok, err,
}
use cellorigin.Base.Assoc.{lookup, insert}
use cellorigin.Gosproto.Error.{tag_repeated}
use cellorigin.Gosproto.Types.{int, string, integer, struct_slice}
use cellorigin.Gosproto.Meta.{
  ℤ, pos, a_struct, a_string, ptr, slice, number, StructField, MetaField, MetaType, MetaState,
  get_sproto_type, fields_loop, open_type, sproto_type, wire_bytes_name, wire_varint_name,
  wire_struct_name, array_name,
}
use cellorigin.Gosproto.Meta.Loops.{HasShortTags}
use cellorigin.Gosproto.Meta.Choice.{Returns, RefsBelow}
use cellorigin.Gosproto.Meta.Total.{get_sproto_type-Returns}
use cellorigin.Gosproto.Meta.Made.{
  get_sproto_type-IsWellFormed, get_sproto_type-again, get_sproto_type-repeated,
}
use cellorigin.Gosproto.RoundTrip.{IsWellFormed}

-- A person has an age, a name and children; the other type has two fields with the tag 1.
abbrev struct_fields : ℕ → List StructField
struct_fields zero =
    record {
      name = b'A' ∷ [];
      go_type = number int;
      tag_string = wire_varint_name ++ b',' ∷ b'1' ∷ [];
    }
    ∷ record {
      name = b'N' ∷ [];
      go_type = a_string;
      tag_string = wire_bytes_name ++ b',' ∷ b'0' ∷ [];
    }
    ∷ record {
      name = b'C' ∷ [];
      go_type = slice (ptr (a_struct 0));
      tag_string = wire_struct_name ++ b',' ∷ b'1' ∷ b'2' ∷ b',' ∷ array_name;
    }
    ∷ []
struct_fields (suc t) =
    record {
      name = b'A' ∷ [];
      go_type = number int;
      tag_string = wire_varint_name ++ b',' ∷ b'1' ∷ [];
    }
    ∷ record {
      name = b'B' ∷ [];
      go_type = number int;
      tag_string = wire_varint_name ++ b',' ∷ b'1' ∷ [];
    }
    ∷ []

abbrev start : MetaState
start = record { types = []; st_map = [] }

abbrev person : MetaType
person = record {
  fields =
      record {
        name = b'A' ∷ [];
        orig_name = b'A' ∷ [];
        wire = wire_varint_name;
        tag = pos 1;
        array = false;
        coder = integer int;
      }
      ∷ record {
        name = b'N' ∷ [];
        orig_name = b'N' ∷ [];
        wire = wire_bytes_name;
        tag = pos 0;
        array = false;
        coder = string;
      }
      ∷ record {
        name = b'C' ∷ [];
        orig_name = b'C' ∷ [];
        wire = wire_struct_name;
        tag = pos 12;
        array = true;
        coder = struct_slice 0;
      }
      ∷ [];
  order = 1 ∷ 0 ∷ 2 ∷ [];
  tag_map = (1, 0) ∷ (0, 1) ∷ (12, 2) ∷ [];
  size = 3;
}

abbrev after : MetaState
after = record { types = person ∷ []; st_map = (0, 0) ∷ [] }

person_made : get_sproto_type struct_fields 2 (a_struct 0) start ≡ (after, ok 0)
unfolding get_sproto_type lookup insert
person_made = refl

short_tag : (n t : ℕ) → n < 2 ^ 15 → pos n ≡ pos t → t < 2 ^ 15
short_tag n t h e = let same : n ≡ t = cc in omega arith

tag_or : Option MetaField → ℤ
tag_or none = pos 0
tag_or (some sf) = sf.tag

person-HasShortTags : HasShortTags person
unfolding tag_or
person-HasShortTags zero t sf g e =
    let f : pos 1 ≡ pos t = ap (λ o. tag_or o) g ∙ e in short_tag 1 t (omega arith) f
person-HasShortTags (suc zero) t sf g e =
    let f : pos 0 ≡ pos t = ap (λ o. tag_or o) g ∙ e in short_tag 0 t (omega arith) f
person-HasShortTags (suc (suc zero)) t sf g e =
    let f : pos 12 ≡ pos t = ap (λ o. tag_or o) g ∙ e in short_tag 12 t (omega arith) f
person-HasShortTags (suc (suc (suc i))) t sf g e = absurd (cc)

get_sproto_type-IsWellFormed_example : IsWellFormed (sproto_type person)
unfolding lookup
get_sproto_type-IsWellFormed_example =
    get_sproto_type-IsWellFormed struct_fields 2 0 0 start after person refl person_made refl
      person-HasShortTags

get_sproto_type-again_example : get_sproto_type struct_fields 1 (a_struct 0) after ≡ (after, ok 0)
unfolding lookup
get_sproto_type-again_example =
    get_sproto_type-again struct_fields 2 0 0 0 start after refl person_made

get_sproto_type-repeated_example :
    ((get_sproto_type struct_fields 2 (a_struct 1) start).1 ≡ err tag_repeated)
    × (get_sproto_type struct_fields 1
          (a_struct 1)
          (get_sproto_type struct_fields 2 (a_struct 1) start).0
        ≡ ((get_sproto_type struct_fields 2 (a_struct 1) start).0, ok 0))
unfolding lookup insert fields_loop open_type
get_sproto_type-repeated_example =
    get_sproto_type-repeated struct_fields 1 0 1 start tag_repeated refl refl

refs_below : (t : ℕ) → t < 2 → All (λ f. RefsBelow 2 f.go_type) (struct_fields t)
refs_below zero h = (tt, (tt, (omega arith, tt)))
refs_below (suc t) h = (tt, (tt, tt))

get_sproto_type-Returns_example : Returns (get_sproto_type struct_fields 3 (a_struct 0) start).1
get_sproto_type-Returns_example =
    get_sproto_type-Returns struct_fields 2 refs_below 3 0 start (omega arith) (omega arith)
