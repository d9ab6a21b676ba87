-- ===== src/Base/Bits.antt =====
-- `|` and `&` at variables, as arithmetic: on disjoint fields, and with a mask of low ones.
use Prim.Native.Nat.{ℕ, zero, suc, ◌+◌, ◌*◌, ◌/◌, ◌%◌, ◌^◌, ◌<◌, ◌≤◌, max, min, digits}
use Prim.Native.Nat.{bit_and-bitwise, bit_or-bitwise}
pub use Prim.Native.Nat.{bit_and, bit_or}
use mathlib.Core.Path.{◌≡◌, refl, ap}
use native.Mathlib.Omega.{arith}
use native.Mathlib.Nat.{pow-suc}
use native.Mathlib.Numerals.{add-one}

abbrev pub IsByte : ℕ → Type 0
IsByte b = b < 256

abbrev pub IsU16 : ℕ → Type 0
IsU16 v = v < 2 ^ 16

abbrev pub IsU32 : ℕ → Type 0
IsU32 v = v < 2 ^ 32

abbrev pub IsU64 : ℕ → Type 0
IsU64 v = v < 2 ^ 64

module _ (z : ℕ → ℕ) (f : ℕ → ℕ → ℕ) where
  -- Two amounts of fuel that are both enough.
  digits_more : (k l x y : ℕ) → x ≤ l → x ≤ k → digits z f k x y ≡ digits z f l x y
  digits_more (suc k) (suc l) (suc x) y hl hk =
      ap (λ t. t * 2 + f (suc x % 2) (y % 2))
        (digits_more k l (suc x / 2) (y / 2) (omega arith) (omega arith))
  digits_more zero zero x y hl hk = refl
  digits_more (suc k) zero zero y hl hk = refl
  digits_more zero (suc l) zero y hl hk = refl
  digits_more (suc k) (suc l) zero y hl hk = refl
  digits_more (suc k) zero (suc x) y hl hk = absurd (omega arith)
  digits_more zero (suc l) (suc x) y hl hk = absurd (omega arith)

bit_or_step : (x y : ℕ) → bit_or x y ≡ max (x % 2) (y % 2) + 2 * bit_or (x / 2) (y / 2)
bit_or_step zero y = omega (arith, bit_or-bitwise 0 y, bit_or-bitwise (0 / 2) (y / 2))
bit_or_step (suc x) y =
    let half =
      digits_more (λ t. t) max x (suc x / 2) (suc x / 2) (y / 2) (omega arith) (omega arith) in
    omega (arith, half, bit_or-bitwise (suc x / 2) (y / 2), bit_or-bitwise (suc x) y)

bit_and_step : (x y : ℕ) → bit_and x y ≡ min (x % 2) (y % 2) + 2 * bit_and (x / 2) (y / 2)
bit_and_step zero y = omega (arith, bit_and-bitwise 0 y, bit_and-bitwise (0 / 2) (y / 2))
bit_and_step (suc x) y =
    let half =
      digits_more (λ t. 0) min x (suc x / 2) (suc x / 2) (y / 2) (omega arith) (omega arith) in
    omega (arith, half, bit_and-bitwise (suc x / 2) (y / 2), bit_and-bitwise (suc x) y)

-- With zero, on a bound for the number.
bit_or-zero_fuel : (bound x : ℕ) → x ≤ bound → bit_or x 0 ≡ x
bit_or-zero_fuel (suc bound) (suc x) le =
    let half = bit_or-zero_fuel bound (suc x / 2) (omega arith) in
    omega (arith, half, bit_or_step (suc x) 0)
bit_or-zero_fuel bound zero le = refl
bit_or-zero_fuel zero (suc x) le = absurd (omega arith)

bit_and-zero_fuel : (bound x : ℕ) → x ≤ bound → bit_and x 0 ≡ 0
bit_and-zero_fuel (suc bound) (suc x) le =
    let half = bit_and-zero_fuel bound (suc x / 2) (omega arith) in
    omega (arith, half, bit_and_step (suc x) 0)
bit_and-zero_fuel bound zero le = refl
bit_and-zero_fuel zero (suc x) le = absurd (omega arith)

double_field : (q k : ℕ) → q * 2 ^ suc k ≡ 2 * (q * 2 ^ k)
double_field q k = omega (arith, ap (λ (t : ℕ). q * t) (pow-suc 2 k))

pub double_pow : (q k : ℕ) → q * 2 ^ (k + 1) ≡ 2 * (q * 2 ^ k)
double_pow q k = rw add-one (double_field q k)

-- `(q << k) | r` is a sum when `r` has at most `k` bits.
pub bit_or-disjoint : (k q r : ℕ) → r < 2 ^ k → bit_or (q * 2 ^ k) r ≡ q * 2 ^ k + r
bit_or-disjoint zero q r fits = ground (arith, bit_or-zero_fuel q q)
bit_or-disjoint (suc k) q r fits = ground (
  arith,
  bit_or_step (q * 2 ^ suc k) r,
  double_field q k,
  bit_or-disjoint k q (r / 2) (omega arith),
)

-- The other way round: the field that is added lies above.
pub bit_or-above : (k r q : ℕ) → r < 2 ^ k → bit_or r (q * 2 ^ k) ≡ r + q * 2 ^ k
bit_or-above zero r q fits = ground (arith, bit_or-bitwise 0 q)
bit_or-above (suc k) r q fits =
    ground (
      arith,
      bit_or_step r (q * 2 ^ suc k),
      double_field q k,
      bit_or-above k (r / 2) q (omega arith),
    )

bit_and_odd : (a m : ℕ) → m % 2 ≡ 1 → bit_and a m ≡ bit_and (a / 2) (m / 2) * 2 + a % 2
bit_and_odd a m h = omega (arith, bit_and_step a m)

-- The 8-bit mask.
pub bit_and-byte : (a : ℕ) → bit_and a 0xff ≡ a % 256
bit_and-byte a = omega (
  arith,
  bit_and_odd a 255 refl,
  bit_and_odd (a / 2) 127 refl,
  bit_and_odd (a / 2 / 2) 63 refl,
  bit_and_odd (a / 2 / 2 / 2) 31 refl,
  bit_and_odd (a / 2 / 2 / 2 / 2) 15 refl,
  bit_and_odd (a / 2 / 2 / 2 / 2 / 2) 7 refl,
  bit_and_odd (a / 2 / 2 / 2 / 2 / 2 / 2) 3 refl,
  bit_and_odd (a / 2 / 2 / 2 / 2 / 2 / 2 / 2) 1 refl,
  bit_and-zero_fuel (a / 2 / 2 / 2 / 2 / 2 / 2 / 2 / 2) (a / 2 / 2 / 2 / 2 / 2 / 2 / 2 / 2)
      (omega arith),
)
