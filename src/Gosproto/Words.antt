-- ===== src/Gosproto/Words.antt =====
-- writeUint16/32/64 of gosproto/encode.go, and readUint16/32/64 of gosproto/decode.go.
-- A byte slice is a list of numbers; an index out of range panics. `v >> k` is `v / 2 ^ k`, and
-- `uint8(e)` is `e % 256`.
pub mod RoundTrip
use cellorigin.Base.{ℕ, ◌+◌, ◌*◌, ◌/◌, ◌%◌, ◌^◌, List, length, get_elem?, set, ltb}
use cellorigin.Base.{Option, none, some, if◌then◌else◌, Outcome, ok, panic, ◌>>=◌}
use cellorigin.Base.Bits.{bit_and, bit_or}

-- `buf[i] = uint8(v)`
unfoldable pub store : {E : Type 0} → List ℕ → ℕ → ℕ → Outcome E (List ℕ)
store buf i v = if ltb i (length buf) then ok (set buf i (v % 256)) else panic

-- `buf[i]`
unfoldable pub load : {E : Type 0} → List ℕ → ℕ → Outcome E ℕ
load buf i = elim (get_elem? buf i) [ none ↦ panic | some b ↦ ok b ]

unfoldable pub write_uint16 : {E : Type 0} → List ℕ → ℕ → Outcome E (List ℕ)
unfolding store
write_uint16 buf v = do buf1 ← store buf 0 (bit_and v 0xff); store buf1 1 (v / 2 ^ 8)

unfoldable pub write_uint32 : {E : Type 0} → List ℕ → ℕ → Outcome E (List ℕ)
unfolding store
write_uint32 buf v = do
  buf1 ← store buf 0 (bit_and v 0xff)
  buf2 ← store buf1 1 (bit_and (v / 2 ^ 8) 0xff)
  buf3 ← store buf2 2 (bit_and (v / 2 ^ 16) 0xff)
  store buf3 3 (bit_and (v / 2 ^ 24) 0xff)

unfoldable pub write_uint64 : {E : Type 0} → List ℕ → ℕ → Outcome E (List ℕ)
unfolding store
write_uint64 buf v = do
  buf1 ← store buf 0 (bit_and v 0xff)
  buf2 ← store buf1 1 (bit_and (v / 2 ^ 8) 0xff)
  buf3 ← store buf2 2 (bit_and (v / 2 ^ 16) 0xff)
  buf4 ← store buf3 3 (bit_and (v / 2 ^ 24) 0xff)
  buf5 ← store buf4 4 (bit_and (v / 2 ^ 32) 0xff)
  buf6 ← store buf5 5 (bit_and (v / 2 ^ 40) 0xff)
  buf7 ← store buf6 6 (bit_and (v / 2 ^ 48) 0xff)
  store buf7 7 (bit_and (v / 2 ^ 56) 0xff)

unfoldable pub read_uint16 : {E : Type 0} → List ℕ → Outcome E ℕ
unfolding load
read_uint16 buf = do b1 ← load buf 1; b0 ← load buf 0; ok (bit_or (b1 * 2 ^ 8 % 2 ^ 16) b0)

unfoldable pub read_uint32 : {E : Type 0} → List ℕ → Outcome E ℕ
unfolding load
read_uint32 buf = do
  b3 ← load buf 3
  b2 ← load buf 2
  b1 ← load buf 1
  b0 ← load buf 0
  ok (
      bit_or (bit_or (bit_or (b3 * 2 ^ 24 % 2 ^ 32) (b2 * 2 ^ 16 % 2 ^ 32)) (b1 * 2 ^ 8 % 2 ^ 32))
        b0)

unfoldable pub read_uint64 : {E : Type 0} → List ℕ → Outcome E ℕ
unfolding load
read_uint64 buf = do
  b7 ← load buf 7
  b6 ← load buf 6
  b5 ← load buf 5
  b4 ← load buf 4
  b3 ← load buf 3
  b2 ← load buf 2
  b1 ← load buf 1
  b0 ← load buf 0
  ok (
      bit_or
        (bit_or
          (bit_or
            (bit_or
              (bit_or
                (bit_or (bit_or (b7 * 2 ^ 56 % 2 ^ 64) (b6 * 2 ^ 48 % 2 ^ 64))
                  (b5 * 2 ^ 40 % 2 ^ 64))
                (b4 * 2 ^ 32 % 2 ^ 64))
              (b3 * 2 ^ 24 % 2 ^ 64))
            (b2 * 2 ^ 16 % 2 ^ 64))
          (b1 * 2 ^ 8 % 2 ^ 64))
        b0)
