-- ===== src/Base/LittleEndian.antt =====
-- Numbers as bytes, lowest byte first.
use Prim.Native.Nat.{ℕ, zero, suc, ◌+◌, ◌*◌, ◌/◌, ◌%◌, ◌^◌, ◌<◌}
use mathlib.Core.Path.{◌≡◌, refl}
use mathlib.Core.List.{List, [], ◌∷◌}
use native.Mathlib.Omega.{arith}
use cellorigin.Base.Lists.{length}

-- The `n` low bytes of `v`.
abbrev pub le_bytes : ℕ → ℕ → List ℕ
le_bytes zero v = []
le_bytes (suc n) v = v % 256 ∷ le_bytes n (v / 256)

abbrev pub le_value : List ℕ → ℕ
le_value [] = 0
le_value (b ∷ bs) = b + 256 * le_value bs

pub length-le_bytes : (n v : ℕ) → length (le_bytes n v) ≡ n
length-le_bytes zero v = refl
length-le_bytes (suc n) v = omega (arith, length-le_bytes n (v / 256))

pub le_value-le_bytes2 : (v : ℕ) → v < 2 ^ 16 → le_value (le_bytes 2 v) ≡ v
le_value-le_bytes2 v h = omega arith

pub le_value-le_bytes4 : (v : ℕ) → v < 2 ^ 32 → le_value (le_bytes 4 v) ≡ v
le_value-le_bytes4 v h = omega arith
