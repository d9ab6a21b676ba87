-- ===== src/Gosproto/Pack.antt =====
-- gosproto/pack.go. A slice `packed[k:]` is a view of the buffer: what is written through it is
-- put back behind the first `k` bytes. An index or a slice bound out of range panics.
pub mod Format
pub mod Segment
pub mod Flush
pub mod Steps
pub mod Rounds
pub mod Invariant
pub mod Loop
pub mod Whole
pub mod Total
mod Runs
use cellorigin.Base.{
  ℕ, zero, suc, ◌+◌, ◌-◌, ◌*◌, ◌/◌, ◌%◌, ◌^◌, Bool, true, false, ◌&&◌, List, [], ◌∷◌, ◌++◌, length,
  take, drop, replicate, ltb, leb, ◌==◌, if◌then◌else◌, Outcome, ok, err, panic, ◌>>=◌,
}
use cellorigin.Base.Bits.{bit_or}
use cellorigin.Gosproto.Error.{Error, unpack}
use cellorigin.Gosproto.Words.{store, load}

-- `dst[k:]`
unfoldable pub slice_from : List ℕ → ℕ → Outcome Error (List ℕ)
slice_from dst k = if leb k (length dst) then ok (drop k dst) else panic

-- `dst[:k]`
unfoldable pub slice_to : List ℕ → ℕ → Outcome Error (List ℕ)
slice_to dst k = if leb k (length dst) then ok (take k dst) else panic

-- Go's `copy`: as many bytes as both sides have.
unfoldable pub copy : List ℕ → List ℕ → List ℕ
copy [] src = []
copy (x ∷ dst) [] = x ∷ dst
copy (x ∷ dst) (b ∷ src) = b ∷ copy dst src

-- The loop of `packSegment`: what is left of `src`, `i`, `header`, `notzero` and `dst`.
pub segment_loop : List ℕ → ℕ → ℕ → ℕ → List ℕ → Outcome Error (ℕ × ℕ × List ℕ)
segment_loop [] i header notzero dst = ok (header, notzero, dst)
segment_loop (v ∷ src) i header notzero dst = elim (v == 0) [
  | true ↦ segment_loop src (i + 1) header notzero dst
  | false ↦ store dst (notzero + 1) v >>= λ dst'.
      segment_loop src (i + 1) (bit_or header (2 ^ i % 256)) (notzero + 1) dst'
]

-- The result of `packSegment`, with `dst` as it leaves it.
pub segment_result : ℕ → ℕ → ℕ → List ℕ → Outcome Error (ℕ × List ℕ)
segment_result ff_n header notzero dst =
    if ltb 0 ff_n && leb 6 notzero
    then ok (8, dst)
    else if notzero == 8
    then ok (10, dst)
    else (store dst 0 header >>= λ dst'. ok (notzero + 1, dst'))

pub pack_segment : List ℕ → List ℕ → ℕ → Outcome Error (ℕ × List ℕ)
pack_segment dst src ff_n = segment_loop src 0 0 0 dst >>= λ (header, notzero, dst').
    segment_result ff_n header notzero dst'

-- `for i := n; i < align8; i++ { dst[2+i] = 0 }`, with the rounds left.
pub zero_fill : ℕ → ℕ → List ℕ → Outcome Error (List ℕ)
zero_fill zero i dst = ok dst
zero_fill (suc rounds) i dst = store dst (2 + i) 0 >>= λ dst'. zero_fill rounds (i + 1) dst'

-- `(n + 7) & (^7)` clears the low three bits.
abbrev pub align8 : ℕ → ℕ
align8 n = (n + 7) / 8 * 8

pub write_ff : List ℕ → List ℕ → ℕ → Outcome Error (List ℕ)
write_ff dst src n = do
  dst1 ← store dst 0 0xff
  dst2 ← store dst1 1 (align8 n / 8 + 255)
  let n' = if ltb (length src) n then length src else n
  view ← slice_from dst2 2
  zero_fill (align8 n - n') n' (take 2 dst2 ++ copy view (take n' src))

pub record PackState : Type 0 where
  pub packed : List ℕ
  pub offset : ℕ
  pub ff_s : List ℕ
  pub ff_n : ℕ
  pub ff_p : ℕ

-- `writeFF(packed[ffP:], ffS, n)`
pub flush : List ℕ → ℕ → List ℕ → ℕ → Outcome Error (List ℕ)
flush packed ff_p ff_s n = do
  view ← slice_from packed ff_p
  view' ← write_ff view ff_s n
  ok (take ff_p packed ++ view')

-- What one round does once `packSegment` has come back with `used`.
pub after_segment : PackState → List ℕ → List ℕ → ℕ → Outcome Error PackState
after_segment s src packed used =
    if used == 10
    then ok (record {
      packed = packed;
      offset = s.offset + used;
      ff_s = src;
      ff_n = 1;
      ff_p = s.offset;
    })
    else if used == 8 && ltb 0 s.ff_n
    then (if s.ff_n + 1 == 256
        then (flush packed s.ff_p s.ff_s ((s.ff_n + 1) * 8) >>= λ p.
            ok (record s { packed = p; offset = s.offset + used; ff_n = 0 }))
        else ok (record s { packed = packed; offset = s.offset + used; ff_n = s.ff_n + 1 }))
    else if ltb 0 s.ff_n
    then (flush packed s.ff_p s.ff_s (s.ff_n * 8) >>= λ p.
        ok (record s { packed = p; offset = s.offset + used; ff_n = 0 }))
    else ok (record s { packed = packed; offset = s.offset + used })

-- One round of the loop in `Pack`.
pub pack_round : PackState → List ℕ → Outcome Error PackState
pack_round s src = do
  let input = if leb 8 (length src) then take 8 src else src
  view ← slice_from s.packed s.offset
  (used, view') ← pack_segment view input s.ff_n
  after_segment s src (take s.offset s.packed ++ view') used

-- `for len(src) > 0 { …; if len(src) <= 8 { break }; src = src[8:] }` with fuel; no fuel is a panic.
pub pack_loop : ℕ → PackState → List ℕ → Outcome Error PackState
pack_loop fuel s [] = ok s
pack_loop zero s (v ∷ src) = panic
pack_loop (suc fuel) s (v ∷ src) = pack_round s (v ∷ src) >>= λ s'.
    elim (leb (length (v ∷ src)) 8) [ true ↦ ok s' | false ↦ pack_loop fuel s' (drop 8 (v ∷ src)) ]

pub pack_finish : PackState → Outcome Error (List ℕ)
pack_finish s =
    (if ltb 0 s.ff_n then flush s.packed s.ff_p s.ff_s (length s.ff_s) else ok s.packed)
    >>= λ packed. slice_to packed s.offset

-- `maxsz`
abbrev pub max_size : ℕ → ℕ
max_size n = n + (n + 2047) / 2048 * 100

pub pack_start : List ℕ → PackState
pack_start src = record {
  packed = replicate (max_size (length src)) 0;
  offset = 0;
  ff_s = [];
  ff_n = 0;
  ff_p = 0;
}

-- A round takes eight bytes, so the length is fuel enough.
pub pack : List ℕ → Outcome Error (List ℕ)
pack src = pack_loop (length src) (pack_start src) src >>= pack_finish

-- The inner loop of `Unpack`: the rounds left, `header` and `notzero`, over the slice `src`.
-- It gives `notzero` at the end and the bytes of `buf`.
pub unpack_bits : ℕ → ℕ → ℕ → List ℕ → Outcome Error (ℕ × List ℕ)
unpack_bits zero header notzero src = ok (notzero, [])
unpack_bits (suc rounds) header notzero src = elim (header % 2 == 1) [
  | true ↦
      if ltb (length src) (notzero + 1 + 1)
      then err unpack
      else (load src (notzero + 1) >>= λ b.
          unpack_bits rounds (header / 2) (notzero + 1) src >>= λ (n, buf). ok (n, b ∷ buf))
  | false ↦ unpack_bits rounds (header / 2) notzero src >>= λ (n, buf). ok (n, 0 ∷ buf)
]

-- One round of the loop in `Unpack`, on a slice that begins with `header`: `used`, and the bytes
-- that are appended.
pub unpack_round : ℕ → List ℕ → Outcome Error (ℕ × List ℕ)
unpack_round header src =
    if header == 0xff
    then (if ltb (length src) 2
        then err unpack
        else (load src 1 >>= λ count.
            let used = 2 + (count + 1) * 8 in
            if ltb (length src) used then err unpack else ok (used, drop 2 (take used src))))
    else (unpack_bits 8 header 0 src >>= λ (notzero, buf). ok (notzero + 1, buf))

pub unpack_loop : ℕ → List ℕ → List ℕ → Outcome Error (List ℕ)
unpack_loop fuel [] unpacked = ok unpacked
unpack_loop zero (header ∷ src) unpacked = panic
unpack_loop (suc fuel) (header ∷ src) unpacked =
    unpack_round header (header ∷ src) >>= λ (used, bytes).
    unpack_loop fuel (drop used (header ∷ src)) (unpacked ++ bytes)

-- A round takes a byte at least.
pub unpack_bytes : List ℕ → Outcome Error (List ℕ)
unpack_bytes src = unpack_loop (length src) src []
