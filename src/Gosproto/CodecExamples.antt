-- ===== src/Gosproto/CodecExamples.antt =====
-- The message codec at a type with a field of most kinds, as in gosproto/encode_test.go.
use cellorigin.Base.{
  ◌+◌, ◌≤◌, err, panic, ◌*◌, ◌⊎◌, ℕ, zero, suc, ◌-◌, ◌^◌, ◌<◌, ◌≡◌, refl, arith, List, [], ◌∷◌,
  ◌++◌, none, some, some-ne-none, All, Outcome, ok, length, ◌>>=◌, inl, inr, true, false,
}
use cellorigin.Base.Assoc.{lookup}
use cellorigin.Gosproto.Words.{write_uint16, write_uint32}
use cellorigin.Gosproto.Error.{Error, decode}
use cellorigin.Gosproto.Pack.{slice_from, slice_to, copy}
use cellorigin.Gosproto.Types.{
  int8, int64, set_int, zero_of, SprotoType, Values, bool, string, integer, integer_slice,
  struct_slice, nil, bool_of, int_of, string_of, ints_of, structs_of, end, field, stop, item,
}
use cellorigin.Gosproto.Encode.{enc, encode_message, header_enc, pointer, encode_sproto}
use cellorigin.Gosproto.Decode.{decode_sproto}
use cellorigin.Gosproto.Decode.Slices.{IsInt, IsKept}
use cellorigin.Gosproto.Encode.{encode_int_slice}
use cellorigin.Gosproto.Encode.Buffers.{ints}
use cellorigin.Gosproto.Encode.Width.{Small, encode_int_slice-Small}
use cellorigin.Gosproto.Decode.{Tag, decode_header, decode_int_slice}
use cellorigin.Gosproto.Decode.Bounds.{decode_header-Bounded, decode_int_slice-panics}
use cellorigin.Gosproto.RoundTrip.{
  IsWellFormed, Holds, AreSent, none_left, untagged, tagged, flag, number, text, numbers, messages,
  nothing, no_more, one_more,
}
use cellorigin.Gosproto.RoundTrip.Nested.{decode_sproto-encode_sproto}
use cellorigin.Gosproto.Packed.{encode_packed, decode_packed}
use cellorigin.Gosproto.Packed.RoundTrip.{decode_packed-encode_packed}

-- A person with a name, an age, a flag, numbers, children and a field that is not sent.
abbrev person : SprotoType
person = record {
  fields =
      record { name = b'n' ∷ []; tag = some 0; coder = string }
      ∷ record { name = b'a' ∷ []; tag = some 1; coder = integer int64 }
      ∷ record { name = b'm' ∷ []; tag = some 2; coder = bool }
      ∷ record { name = b'c' ∷ []; tag = some 5; coder = struct_slice 0 }
      ∷ record { name = b'i' ∷ []; tag = some 7; coder = integer_slice int8 }
      ∷ record { name = b'x' ∷ []; tag = none; coder = string }
      ∷ [];
  tag_map = (0, 0) ∷ (1, 1) ∷ (2, 2) ∷ (5, 3) ∷ (7, 4) ∷ [];
  order = 5 ∷ 0 ∷ 1 ∷ 2 ∷ 3 ∷ 4 ∷ [];
}

abbrev types : ℕ → SprotoType
types t = person

abbrev get_type : ℕ → Outcome Error SprotoType
get_type t = ok person

abbrev alice : Values
alice = field (string_of (b'A' ∷ [])) (
    field (int_of 40000) (
      field (bool_of false)
        (field nil (field (ints_of (1 ∷ (2 ^ 64 - 2) ∷ [])) (field (string_of []) end)))))

abbrev bob : Values
bob = field (string_of (b'B' ∷ b'o' ∷ b'b' ∷ [])) (
    field (int_of 13) (
      field (bool_of true)
        (field (structs_of (item alice stop)) (field nil (field (string_of []) end)))))

abbrev nobody : Values
nobody =
    field (string_of [])
      (field (int_of 0) (field (bool_of false) (field nil (field nil (field (string_of []) end)))))

all_held : (j : ℕ) → j < 6 → Holds j person.order
all_held zero h = inr (inl refl)
all_held (suc zero) h = inr (inr (inl refl))
all_held (suc (suc zero)) h = inr (inr (inr (inl refl)))
all_held (suc (suc (suc zero))) h = inr (inr (inr (inr (inl refl))))
all_held (suc (suc (suc (suc zero)))) h = inr (inr (inr (inr (inr (inl refl)))))
all_held (suc (suc (suc (suc (suc zero))))) h = inl refl
all_held (suc (suc (suc (suc (suc (suc j)))))) h = absurd (omega arith)

person-IsWellFormed : IsWellFormed person
unfolding lookup
person-IsWellFormed = (
  (
    _,
    refl,
    inl (
      refl,
      (
        _,
        refl,
        inr (
          0,
          refl,
          omega arith,
          omega arith,
          refl,
          (
            _,
            refl,
            inr (
              1,
              refl,
              omega arith,
              omega arith,
              refl,
              (
                _,
                refl,
                inr (
                  2,
                  refl,
                  omega arith,
                  omega arith,
                  refl,
                  (
                    _,
                    refl,
                    inr (
                      5,
                      refl,
                      omega arith,
                      omega arith,
                      refl,
                      (_, refl, inr (7, refl, omega arith, omega arith, refl, tt)),
                    ),
                  ),
                ),
              ),
            ),
          ),
        ),
      ),
    ),
  ),
  omega arith,
  all_held,
)

in_range : (n : ℕ) → n < 2 ^ 64 → IsInt int64 n
unfolding set_int
in_range n h = omega arith

alice_numbers : All (λ n. IsInt int8 n × IsKept int8 n) (1 ∷ (2 ^ 64 - 2) ∷ [])
unfolding set_int
alice_numbers = ((refl, tt), ((refl, tt), tt))

alice-AreSent : AreSent types person.fields alice
unfolding enc zero_of copy slice_from write_uint32
alice-AreSent =
    tagged _ _ _ _ (some-ne-none _) (text _) (omega arith, (omega arith, tt))
      (tagged _ _ _ _ (some-ne-none _)
        (number int64 40000 (in_range 40000 (omega arith)) (omega arith)) (ground arith)
        (tagged _ _ _ _ (some-ne-none _) (flag false) tt (
          tagged _ _ _ _ (some-ne-none _) (nothing _ tt) tt (
            tagged _ _ _ _ (some-ne-none _) (numbers int8 _ alice_numbers) (ground arith)
              (untagged _ _ _ _ refl refl none_left)))))

bob-AreSent : AreSent types person.fields bob
unfolding enc encode_message header_enc zero_of copy slice_from slice_to write_uint16 write_uint32
bob-AreSent = tagged _ _ _ _ (some-ne-none _) (text _) (ground arith) (
    tagged _ _ _ _ (some-ne-none _) (number int64 13 (in_range 13 (omega arith)) (omega arith)) tt (
      tagged _ _ _ _ (some-ne-none _) (flag true) tt (
        tagged _ _ _ _ (some-ne-none _)
          (messages 0 _ (one_more person alice stop alice-AreSent (ground arith) (no_more person)))
          (ground arith)
          (tagged _ _ _ _ (some-ne-none _) (nothing _ tt) tt
            (untagged _ _ _ _ refl refl none_left)))))

decode_sproto-encode_sproto_example :
    (bs : List ℕ) × (encode_sproto get_type types (pointer 0 bob) ≡ ok bs)
    × (decode_sproto types get_type (bs ++ (1 ∷ 2 ∷ 3 ∷ [])) (pointer 0 nobody)
        ≡ ok (length bs, bob))
decode_sproto-encode_sproto_example =
    decode_sproto-encode_sproto types (λ t. person-IsWellFormed) get_type 0 bob nobody
      (1 ∷ 2 ∷ 3 ∷ []) refl bob-AreSent

decode_packed-encode_packed_example :
    (encode_packed types get_type (pointer 0 bob) >>= λ bs.
    decode_packed types get_type bs (pointer 0 alice))
    ≡ ok bob
decode_packed-encode_packed_example =
    decode_packed-encode_packed types (λ t. person-IsWellFormed) get_type 0 bob alice refl
      bob-AreSent

encode_int_slice-Small_example :
    (All (Small int64) (1 ∷ 2 ^ 40 ∷ [])
      × (encode_int_slice int64 (1 ∷ 2 ^ 40 ∷ []) ≡ ok (4 ∷ ints 4 (1 ∷ 2 ^ 40 ∷ []))))
    ⊎ ((¬ All (Small int64) (1 ∷ 2 ^ 40 ∷ []))
        × (encode_int_slice int64 (1 ∷ 2 ^ 40 ∷ []) ≡ ok (8 ∷ ints 8 (1 ∷ 2 ^ 40 ∷ []))))
encode_int_slice-Small_example = encode_int_slice-Small int64 (1 ∷ 2 ^ 40 ∷ [])

decode_header-Bounded_example :
    (decode_header (2 ∷ 0 ∷ 4 ∷ 0 ∷ 1 ∷ 0 ∷ 9 ∷ []) ≡ err decode)
    ⊎ ((total : ℕ) × (tags : List Tag) × (decode_header (2 ∷ 0 ∷ 4 ∷ 0 ∷ 1 ∷ 0 ∷ 9 ∷ [])
          ≡ ok (total, tags))
        × (total ≤ 7)
        × (2 * length tags + 2 ≤ total))
decode_header-Bounded_example = decode_header-Bounded (2 ∷ 0 ∷ 4 ∷ 0 ∷ 1 ∷ 0 ∷ 9 ∷ [])

decode_int_slice-panics_example : decode_int_slice int64 (2 ∷ 1 ∷ 0 ∷ 2 ∷ 0 ∷ []) ≡ panic
decode_int_slice-panics_example =
    decode_int_slice-panics int64 2 (1 ∷ 0 ∷ 2 ∷ 0 ∷ []) (omega arith) (λ e. absurd (omega arith))
      (inr (omega arith, refl))
