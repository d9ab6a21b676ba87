-- ===== src/Gosproto/Layout.antt =====
-- A message between `encodeMessage` and `decodeMessage` (gosproto/encode.go, gosproto/decode.go): the
-- fields in the order of their tags, each with the form that it has in the message.
pub mod Written
pub mod ReadBack
pub mod Fill
pub mod Message
use cellorigin.Base.{
  ℕ, zero, suc, ◌+◌, ◌-◌, ◌*◌, ◌^◌, ◌<◌, ◌≤◌, ◌≡◌, List, [], ◌∷◌, ◌++◌, Option, none, some, Bool,
  true, false, ltb, if◌then◌else◌, Outcome, ok, length, All,
}
use cellorigin.Base.Bits.{IsByte}
use cellorigin.Gosproto.Error.{Error}
use cellorigin.Gosproto.Types.{
  Coder, SprotoField, SprotoType, Value, Values, zeros, get_value, set_value,
}
use cellorigin.Gosproto.Encode.{Encoded}
use cellorigin.Gosproto.Encode.Buffers.{chunk}
use cellorigin.Gosproto.Decode.{Tag, field_by_tag}
use cellorigin.Gosproto.Decode.Slices.{IsShort}

-- The data of a field: bytes, and their number is a uint32.
abbrev pub IsData : List ℕ → Type 0
IsData bs = IsShort bs × All IsByte bs

-- A field of the order, by its index: without a tag; left out; in the header; as a chunk of data.
-- The last three have their tag.
pub data Entry : Type 0 where
  untagged : ℕ → Encoded → Entry
  absent : ℕ → ℕ → Outcome Error (Option (List ℕ)) → Entry
  embedded : ℕ → ℕ → SprotoField → Value → ℕ → Entry
  chunked : ℕ → ℕ → SprotoField → Value → List ℕ → Entry

abbrev pub index : Entry → ℕ
index (untagged i e) = i
index (absent i t d) = i
index (embedded i t sf v x) = i
index (chunked i t sf v bs) = i

-- What the loop of `encodeMessage` has for it.
abbrev pub item : Entry → Option ℕ × Encoded
item (untagged i e) = (none, e)
item (absent i t d) = (some t, record { header = ok (0, true); data_of = d })
item (embedded i t sf v x) =
    (some t, record { header = ok (2 * (x + 1), false); data_of = ok none })
item (chunked i t sf v bs) = (some t, record { header = ok (0, false); data_of = ok (some bs) })

-- The header that stands for the tags from `next` up to `t`.
abbrev pub skips : ℕ → ℕ → List ℕ
skips next t = if ltb next t then (2 * (t - next) - 1) ∷ [] else []

abbrev pub headers_of : ℕ → List Entry → List ℕ
headers_of next [] = []
headers_of next (untagged i e ∷ es) = headers_of next es
headers_of next (absent i t d ∷ es) = headers_of next es
headers_of next (embedded i t sf v x ∷ es) = skips next t ++ (2 * (x + 1)) ∷ headers_of (t + 1) es
headers_of next (chunked i t sf v bs ∷ es) = skips next t ++ 0 ∷ headers_of (t + 1) es

abbrev pub tags_of : List Entry → List Tag
tags_of [] = []
tags_of (untagged i e ∷ es) = tags_of es
tags_of (absent i t d ∷ es) = tags_of es
tags_of (embedded i t sf v x ∷ es) = record { tag = t; val = some x } ∷ tags_of es
tags_of (chunked i t sf v bs ∷ es) = record { tag = t; val = none } ∷ tags_of es

abbrev pub body_of : List Entry → List ℕ
body_of [] = []
body_of (untagged i e ∷ es) = body_of es
body_of (absent i t d ∷ es) = body_of es
body_of (embedded i t sf v x ∷ es) = body_of es
body_of (chunked i t sf v bs ∷ es) = chunk bs ++ body_of es

-- The decoded fields are set one after the other.
abbrev pub fill : List Entry → Values → Values
fill [] cur = cur
fill (untagged i e ∷ es) cur = fill es cur
fill (absent i t d ∷ es) cur = fill es cur
fill (embedded i t sf v x ∷ es) cur = fill es (set_value cur i v)
fill (chunked i t sf v bs ∷ es) cur = fill es (set_value cur i v)

-- The entries stand for the values `vs` of the type `st`, and `dec` at some fuel reads each: tags
-- ascend from `next`, and a field that has no place in the message holds its zero.
module _ (dec : ℕ → Coder → Option ℕ → List ℕ → Outcome Error Value) (st : SprotoType)
    (vs : Values) where
  abbrev pub IsPlaced : ℕ → ℕ → ℕ → SprotoField → Value → Type 0
  IsPlaced next i t sf v =
      (next ≤ t) × (t < 2 ^ 15) × (field_by_tag st t ≡ some (i, sf)) × (get_value vs i ≡ some v)

  abbrev pub IsBlank : ℕ → Type 0
  IsBlank i = get_value (zeros st.fields) i ≡ get_value vs i

  abbrev pub IsLaid : ℕ → List Entry → Type 0
  IsLaid next [] = Unit
  IsLaid next (untagged i e ∷ es) = IsBlank i × IsLaid next es
  IsLaid next (absent i t d ∷ es) = IsBlank i × IsLaid next es
  IsLaid next (embedded i t sf v x ∷ es) =
      IsPlaced next i t sf v
      × (x < 2 ^ 15 - 1)
      × ((fuel : ℕ) → dec fuel sf.coder (some x) [] ≡ ok v)
      × IsLaid (t + 1) es
  IsLaid next (chunked i t sf v bs ∷ es) =
      IsPlaced next i t sf v
      × IsData bs
      × ((fuel : ℕ) → length bs ≤ fuel → dec fuel sf.coder none bs ≡ ok v)
      × IsLaid (t + 1) es
