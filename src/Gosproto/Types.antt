-- ===== src/Gosproto/Types.antt =====
-- The part of gosproto/meta.go that the coders read: a type with its fields, their tags and coders,
-- and the values that they hold. Types are named by references (`st` in the source is a pointer, and
-- a type may hold itself); `types` says what a reference stands for.
use cellorigin.Base.{
  ℕ, zero, suc, ◌+◌, ◌-◌, ◌%◌, ◌^◌, List, [], ◌∷◌, Option, none, some, Bool, false, ltb,
  if◌then◌else◌,
}

-- The integer kinds of `reflect`. `int` and `uint` have 64 bits.
pub data IntKind : Type 0 where
  int8 int16 int32 int64 int uint8 uint16 uint32 uint64 uint : IntKind

-- An integer is the pattern of 64 bits that `uint64(v.Int())` or `v.Uint()` gives. `wrap` is what
-- `SetInt` keeps of a pattern in a signed type with `full` values, `half` of them not negative.
abbrev pub wrap : ℕ → ℕ → ℕ → ℕ
wrap half full n = if ltb (n % full) half then n % full else n % full + (2 ^ 64 - full)

-- `SetInt(int64(n))` or `SetUint(n)`
unfoldable pub set_int : IntKind → ℕ → ℕ
set_int int8 n = wrap 0x80 0x100 n
set_int int16 n = wrap 0x8000 0x10000 n
set_int int32 n = wrap 0x80000000 0x100000000 n
set_int int64 n = n % 2 ^ 64
set_int int n = n % 2 ^ 64
set_int uint8 n = n % 2 ^ 8
set_int uint16 n = n % 2 ^ 16
set_int uint32 n = n % 2 ^ 32
set_int uint64 n = n % 2 ^ 64
set_int uint n = n % 2 ^ 64

-- The functions `headerEnc`, `enc` and `dec` that `setEncAndDec` puts into a field.
pub data Coder : Type 0 where
  bool string bool_slice bytes string_slice unset : Coder
  integer integer_slice : IntKind → Coder
  struct struct_slice : ℕ → Coder

-- `tag` is `none` for a negative tag: the coders pass over such a field.
pub record SprotoField : Type 0 where
  pub name : List ℕ
  pub tag : Option ℕ
  pub coder : Coder

pub record SprotoType : Type 0 where
  pub fields : List SprotoField
  pub tag_map : List (ℕ × ℕ)
  pub order : List ℕ

-- A field's value: `nil` is a nil pointer or slice; a struct is held by a pointer.
mutual
  pub data Value : Type 0 where
    nil : Value
    bool_of : Bool → Value
    int_of : ℕ → Value
    string_of bytes_of : List ℕ → Value
    bools_of : List Bool → Value
    ints_of : List ℕ → Value
    strings_of : List (List ℕ) → Value
    struct_of : Values → Value
    structs_of : Structs → Value

  -- The fields of a struct, in the order of their declaration.
  pub data Values : Type 0 where
    end : Values
    field : Value → Values → Values

  -- A slice of pointers to structs.
  pub data Structs : Type 0 where
    stop : Structs
    null : Structs → Structs
    item : Values → Structs → Structs

-- `reflect.Zero`
unfoldable pub zero_of : Coder → Value
zero_of bool = bool_of false
zero_of string = string_of []
zero_of (integer k) = int_of 0
zero_of _ = nil

unfoldable pub zeros : List SprotoField → Values
unfolding zero_of
zeros [] = end
zeros (sf ∷ fields) = field (zero_of sf.coder) (zeros fields)

-- `v.FieldByIndex`
unfoldable pub get_value : Values → ℕ → Option Value
get_value end i = none
get_value (field v vs) zero = some v
get_value (field v vs) (suc i) = get_value vs i

unfoldable pub set_value : Values → ℕ → Value → Values
set_value end i w = end
set_value (field v vs) zero w = field w vs
set_value (field v vs) (suc i) w = field v (set_value vs i w)
