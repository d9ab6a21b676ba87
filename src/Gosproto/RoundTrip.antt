-- ===== src/Gosproto/RoundTrip.antt =====
-- Which values of gosproto/meta.go's types a message carries: the conditions under which `Decode`
-- gives back what `Encode` was given.
pub mod Fields
pub mod Ordered
pub mod Nested
use cellorigin.Base.{
  ℕ, zero, suc, ◌+◌, ◌-◌, ◌*◌, ◌^◌, ◌<◌, ◌≤◌, ◌≡◌, ◌≢◌, List, [], ◌∷◌, Option, none, some,
  get_elem?, length, All, Outcome, ok, err, panic, ◌⊎◌, Bool, true, false,
}
use cellorigin.Base.Assoc.{lookup, nat_eq}
use cellorigin.Gosproto.Error.{Error}
use cellorigin.Gosproto.Types.{
  IntKind, Coder, bool, string, bool_slice, bytes, string_slice, unset, integer, integer_slice,
  struct, struct_slice, SprotoField, SprotoType, Value, Values, Structs, nil, bool_of, int_of,
  string_of, bytes_of, bools_of, ints_of, strings_of, struct_of, structs_of, end, field, stop, item,
  zero_of, zeros,
}
use cellorigin.Gosproto.Encode.{Encoded, enc, enc_values, encode_message, header_enc}
use cellorigin.Gosproto.Decode.{dec_with, decode_message}
use cellorigin.Gosproto.Layout.{IsData}
use cellorigin.Gosproto.Decode.Slices.{IsShort, IsInt, IsKept}

-- The fields of a type in the order of their tags, from `next` on: tags ascend, have 15 bits, and
-- lead back to their field. A field without a tag stands anywhere.
abbrev pub IsOrdered : SprotoType → ℕ → List ℕ → Type 0
IsOrdered st next [] = Unit
IsOrdered st next (i ∷ is) =
    (sf : SprotoField) × (get_elem? st.fields i ≡ some sf)
    × (((sf.tag ≡ none) × IsOrdered st next is)
        ⊎ ((t : ℕ) × (sf.tag ≡ some t)
            × (next ≤ t)
            × (t < 2 ^ 15)
            × (lookup t st.tag_map ≡ some i)
            × IsOrdered st (t + 1) is))

abbrev pub Holds : ℕ → List ℕ → Type 0
Holds j [] = ⊥
Holds j (i ∷ is) = (i ≡ j) ⊎ Holds j is

abbrev pub IsWellFormed : SprotoType → Type 0
IsWellFormed st =
    IsOrdered st 0 st.order
    × (length st.order ≤ length st.fields)
    × ((j : ℕ) → j < length st.fields → Holds j st.order)

-- What a coder gives is data: bytes, fewer than 2 ^ 32.
abbrev pub Fits : Outcome Error (Option (List ℕ)) → Type 0
Fits (ok (some bs)) = IsData bs
Fits _ = Unit

abbrev pub FitsChunk : Outcome Error (List ℕ) → Type 0
FitsChunk (ok bs) = IsShort bs
FitsChunk _ = Unit

-- The zeros of slices and of pointers are nil.
abbrev pub HoldsNil : Coder → Type 0
HoldsNil bool = ⊥
HoldsNil string = ⊥
HoldsNil unset = ⊥
HoldsNil (integer k) = ⊥
HoldsNil _ = Unit

module _ (types : ℕ → SprotoType) where
  mutual
    -- A value that a field's coders give back: an integer is in the range of its kind and kept, and a
    -- slice of structs holds no nil pointer.
    pub data IsSent : Coder → Value → Type 0 where
      flag : (b : Bool) → IsSent bool (bool_of b)
      number : (k : IntKind) (n : ℕ) → IsInt k n → IsKept k n → IsSent (integer k) (int_of n)
      text : (s : List ℕ) → IsSent string (string_of s)
      blob : (s : List ℕ) → IsSent bytes (bytes_of s)
      flags : (bs : List Bool) → IsSent bool_slice (bools_of bs)
      numbers :
          (k : IntKind) (ns : List ℕ)
          → All (λ n. IsInt k n × IsKept k n) ns
          → IsSent (integer_slice k) (ints_of ns)
      texts : (ss : List (List ℕ)) → All IsShort ss → IsSent string_slice (strings_of ss)
      message :
          (st : ℕ) (vs : Values) → AreSent (types st).fields vs → IsSent (struct st) (struct_of vs)
      messages :
          (st : ℕ) (ss : Structs) → AllSent (types st) ss → IsSent (struct_slice st) (structs_of ss)
      nothing : (c : Coder) → HoldsNil c → IsSent c nil

    -- A field without a tag holds its zero.
    pub data AreSent : List SprotoField → Values → Type 0 where
      none_left : AreSent [] end
      untagged :
          (sf : SprotoField) (v : Value) (fields : List SprotoField) (vs : Values)
          → sf.tag ≡ none
          → v ≡ zero_of sf.coder
          → AreSent fields vs
          → AreSent (sf ∷ fields) (field v vs)
      tagged :
          (sf : SprotoField) (v : Value) (fields : List SprotoField) (vs : Values)
          → sf.tag ≢ none
          → IsSent sf.coder v
          → Fits (enc types sf.coder v)
          → AreSent fields vs
          → AreSent (sf ∷ fields) (field v vs)

    pub data AllSent : SprotoType → Structs → Type 0 where
      no_more : (st : SprotoType) → AllSent st stop
      one_more :
          (st : SprotoType) (vs : Values) (ss : Structs)
          → AreSent st.fields vs
          → FitsChunk (encode_message types st vs)
          → AllSent st ss
          → AllSent st (item vs ss)

  -- `sf.dec` where nested messages have some fuel.
  abbrev pub dec_at : ℕ → Coder → Option ℕ → List ℕ → Outcome Error Value
  dec_at fuel = dec_with (λ t bs. decode_message types fuel (types t) bs (zeros (types t).fields))

  -- How a field's value goes through its coders: left out, in the header, or as data.
  pub data IsCoded (c : Coder) (v : Value) : Type 0 where
    absent : header_enc c v ≡ ok (0, true) → v ≡ zero_of c → IsCoded c v
    embedded :
        (x : ℕ)
        → x < 2 ^ 15 - 1
        → header_enc c v ≡ ok (2 * (x + 1), false)
        → enc types c v ≡ ok none
        → ((fuel : ℕ) → dec_at fuel c (some x) [] ≡ ok v)
        → IsCoded c v
    chunked :
        (bs : List ℕ)
        → header_enc c v ≡ ok (0, false)
        → enc types c v ≡ ok (some bs)
        → IsData bs
        → ((fuel : ℕ) → length bs ≤ fuel → dec_at fuel c none bs ≡ ok v)
        → IsCoded c v

  abbrev pub AreCoded : List SprotoField → Values → Type 0
  AreCoded [] end = Unit
  AreCoded (sf ∷ fields) (field v vs) =
      (((sf.tag ≡ none) × (v ≡ zero_of sf.coder)) ⊎ ((sf.tag ≢ none) × IsCoded sf.coder v))
      × AreCoded fields vs
  AreCoded _ _ = ⊥
