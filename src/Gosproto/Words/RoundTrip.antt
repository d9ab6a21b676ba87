-- ===== src/Gosproto/Words/RoundTrip.antt =====
-- The bytes that the writers leave, and that the readers get the number back.
use cellorigin.Base.{ℕ, zero, suc, ◌*◌, ◌/◌, ◌%◌, ◌^◌, ◌≤◌, ◌≡◌, refl, arith}
use cellorigin.Base.{List, [], ◌∷◌, ◌++◌, length, drop, ok, All, ◌>>=◌, le_bytes}
use cellorigin.Base.Bits.{bit_and-byte, bit_or-disjoint, IsByte, IsU16, IsU32, IsU64}
use cellorigin.Gosproto.Words.{
  write_uint16, write_uint32, write_uint64, read_uint16, read_uint32, read_uint64,
}

pub le_bytes-IsByte : (n v : ℕ) → All IsByte (le_bytes n v)
le_bytes-IsByte zero v = tt
le_bytes-IsByte (suc n) v = (omega arith, le_bytes-IsByte n (v / 256))

module _ {E : Type 0} where
  pub write_uint16-le_bytes :
      (buf : List ℕ) (v : ℕ)
      → IsU16 v
      → 2 ≤ length buf
      → write_uint16 {E = E} buf v ≡ ok (le_bytes 2 v ++ drop 2 buf)
  unfolding write_uint16
  write_uint16-le_bytes [] v fits h = absurd (omega arith)
  write_uint16-le_bytes (a ∷ []) v fits h = absurd (omega arith)
  write_uint16-le_bytes (a ∷ b ∷ buf) v fits h = ground (arith, bit_and-byte v)

  pub write_uint32-le_bytes :
      (buf : List ℕ) (v : ℕ)
      → 4 ≤ length buf
      → write_uint32 {E = E} buf v ≡ ok (le_bytes 4 v ++ drop 4 buf)
  unfolding write_uint32
  write_uint32-le_bytes (a ∷ b ∷ c ∷ d ∷ buf) v h = ground (
    arith,
    bit_and-byte v,
    bit_and-byte (v / 2 ^ 8),
    bit_and-byte (v / 2 ^ 16),
    bit_and-byte (v / 2 ^ 24),
  )
  write_uint32-le_bytes _ v h = absurd (omega arith)

  pub read_uint16-le_bytes :
      (v : ℕ) (rest : List ℕ) → IsU16 v → read_uint16 {E = E} (le_bytes 2 v ++ rest) ≡ ok v
  unfolding read_uint16
  read_uint16-le_bytes v rest h = ground (arith, bit_or-disjoint 8 (v / 256) (v % 256))

  pub read_uint32-le_bytes :
      (v : ℕ) (rest : List ℕ) → IsU32 v → read_uint32 {E = E} (le_bytes 4 v ++ rest) ≡ ok v
  unfolding read_uint32
  read_uint32-le_bytes v rest h = ground (
    arith,
    bit_or-disjoint 24 (v / 2 ^ 24) (v / 2 ^ 16 % 256 * 2 ^ 16),
    bit_or-disjoint 16 (v / 2 ^ 16) (v / 2 ^ 8 % 256 * 2 ^ 8),
    bit_or-disjoint 8 (v / 2 ^ 8) (v % 256),
  )

  pub write_uint64-le_bytes :
      (buf : List ℕ) (v : ℕ)
      → 8 ≤ length buf
      → write_uint64 {E = E} buf v ≡ ok (le_bytes 8 v ++ drop 8 buf)
  unfolding write_uint64
  write_uint64-le_bytes (a ∷ b ∷ c ∷ d ∷ e ∷ f ∷ g ∷ h ∷ buf) v _ = ground (
    arith,
    bit_and-byte v,
    bit_and-byte (v / 2 ^ 8),
    bit_and-byte (v / 2 ^ 16),
    bit_and-byte (v / 2 ^ 24),
    bit_and-byte (v / 2 ^ 32),
    bit_and-byte (v / 2 ^ 40),
    bit_and-byte (v / 2 ^ 48),
    bit_and-byte (v / 2 ^ 56),
  )
  write_uint64-le_bytes _ v h = absurd (omega arith)

  pub read_uint64-le_bytes :
      (v : ℕ) (rest : List ℕ) → IsU64 v → read_uint64 {E = E} (le_bytes 8 v ++ rest) ≡ ok v
  unfolding read_uint64
  read_uint64-le_bytes v rest h = ground (
    arith,
    bit_or-disjoint 56 (v / 2 ^ 56) (v / 2 ^ 48 % 256 * 2 ^ 48),
    bit_or-disjoint 48 (v / 2 ^ 48) (v / 2 ^ 40 % 256 * 2 ^ 40),
    bit_or-disjoint 40 (v / 2 ^ 40) (v / 2 ^ 32 % 256 * 2 ^ 32),
    bit_or-disjoint 32 (v / 2 ^ 32) (v / 2 ^ 24 % 256 * 2 ^ 24),
    bit_or-disjoint 24 (v / 2 ^ 24) (v / 2 ^ 16 % 256 * 2 ^ 16),
    bit_or-disjoint 16 (v / 2 ^ 16) (v / 2 ^ 8 % 256 * 2 ^ 8),
    bit_or-disjoint 8 (v / 2 ^ 8) (v % 256),
  )

  -- A number written into a buffer with room for it is read back, at each of the three widths,
  -- and the bytes behind it stay.
  pub read-write :
      (b16 b32 b64 : List ℕ) (v16 v32 v64 : ℕ)
      → IsU16 v16
      → IsU32 v32
      → IsU64 v64
      → 2 ≤ length b16
      → 4 ≤ length b32
      → 8 ≤ length b64
      → ((write_uint16 {E = E} b16 v16 >>= read_uint16) ≡ ok v16)
        × ((write_uint32 {E = E} b32 v32 >>= read_uint32) ≡ ok v32)
        × ((write_uint64 {E = E} b64 v64 >>= read_uint64) ≡ ok v64)
        × ((write_uint16 {E = E} b16 v16 >>= λ b. ok (drop 2 b)) ≡ ok (drop 2 b16))
        × ((write_uint32 {E = E} b32 v32 >>= λ b. ok (drop 4 b)) ≡ ok (drop 4 b32))
        × ((write_uint64 {E = E} b64 v64 >>= λ b. ok (drop 8 b)) ≡ ok (drop 8 b64))
  read-write b16 b32 b64 v16 v32 v64 h16 h32 h64 r16 r32 r64 =
      let w16 = write_uint16-le_bytes b16 v16 h16 r16 in
      let w32 = write_uint32-le_bytes b32 v32 r32 in
      let w64 = write_uint64-le_bytes b64 v64 r64 in
      (
        rw w16 (read_uint16-le_bytes v16 (drop 2 b16) h16),
        rw w32 (read_uint32-le_bytes v32 (drop 4 b32) h32),
        rw w64 (read_uint64-le_bytes v64 (drop 8 b64) h64),
        rw w16 refl,
        rw w32 refl,
        rw w64 refl,
      )
