-- ===== src/Gosproto/Examples.antt =====
-- The theorems on packing, at the bytes of gosproto/pack_test.go and at others.
use cellorigin.Base.{ℕ, List, [], ◌∷◌, ◌++◌, ◌≡◌, refl, arith, replicate, ok, ◌>>=◌, All, drop}
use cellorigin.Base.Bits.{IsByte}
use cellorigin.Gosproto.Error.{Error}
use cellorigin.Gosproto.Words.{
  write_uint16, write_uint32, write_uint64, read_uint16, read_uint32, read_uint64,
}
use cellorigin.Gosproto.Words.RoundTrip.{read-write}
use cellorigin.Gosproto.Pack.{pack, unpack_bytes}
use cellorigin.Gosproto.Pack.Format.{Packed, done, plain, run, unpack_bytes-Packed}
use cellorigin.Gosproto.Pack.Whole.{pad8, pack-Packed, unpack-pack}
use cellorigin.Gosproto.Pack.Total.{Unpacked, unpack_bytes-Unpacked}

abbrev src : List ℕ
src = 0x08 ∷ 0 ∷ 0 ∷ 0 ∷ 0x03 ∷ 0 ∷ 0x02 ∷ 0 ∷ 0x19 ∷ 0xaa ∷ 0x01 ∷ []

src-IsByte : All IsByte src
src-IsByte = ground arith

unpack-pack_example : (pack src >>= unpack_bytes) ≡ ok (pad8 src)
unpack-pack_example = unpack-pack src src-IsByte

pack-Packed_example : (p : List ℕ) × (pack src ≡ ok p) × Packed p (pad8 src)
pack-Packed_example = pack-Packed src src-IsByte

abbrev packed : List ℕ
packed = 0x51 ∷ 0x08 ∷ 0x03 ∷ 0x02 ∷ 0xff ∷ 0 ∷ replicate 8 0x8a

unpacked : Packed packed ((0x08 ∷ 0 ∷ 0 ∷ 0 ∷ 0x03 ∷ 0 ∷ 0x02 ∷ 0 ∷ []) ++ replicate 8 0x8a)
unpacked =
    plain (0x08 ∷ 0 ∷ 0 ∷ 0 ∷ 0x03 ∷ 0 ∷ 0x02 ∷ 0 ∷ []) (0xff ∷ 0 ∷ replicate 8 0x8a)
      (replicate 8 0x8a) refl (omega arith)
      (run 0 (replicate 8 0x8a) [] [] (omega arith) refl (done refl refl) refl refl) refl refl

unpack_bytes-Packed_example :
    unpack_bytes packed ≡ ok ((0x08 ∷ 0 ∷ 0 ∷ 0 ∷ 0x03 ∷ 0 ∷ 0x02 ∷ 0 ∷ []) ++ replicate 8 0x8a)
unpack_bytes-Packed_example = unpack_bytes-Packed unpacked

-- A run that is cut short.
unpack_bytes-Unpacked_example : Unpacked (unpack_bytes (0xff ∷ 0x01 ∷ 1 ∷ 2 ∷ []))
unpack_bytes-Unpacked_example = unpack_bytes-Unpacked (0xff ∷ 0x01 ∷ 1 ∷ 2 ∷ [])

-- Each buffer has one byte behind the number, the last one has none.
read-write_example :
    ((write_uint16 {E = Error} (replicate 3 7) 0x1234 >>= read_uint16) ≡ ok 0x1234)
    × ((write_uint32 {E = Error} (replicate 5 7) 0x12345678 >>= read_uint32) ≡ ok 0x12345678)
    × ((write_uint64 {E = Error} (replicate 8 7) 0xf123456789abcdef >>= read_uint64)
        ≡ ok 0xf123456789abcdef)
    × ((write_uint16 {E = Error} (replicate 3 7) 0x1234 >>= λ b. ok (drop 2 b))
        ≡ ok (drop 2 (replicate 3 7)))
    × ((write_uint32 {E = Error} (replicate 5 7) 0x12345678 >>= λ b. ok (drop 4 b))
        ≡ ok (drop 4 (replicate 5 7)))
    × ((write_uint64 {E = Error} (replicate 8 7) 0xf123456789abcdef >>= λ b. ok (drop 8 b))
        ≡ ok (drop 8 (replicate 8 7)))
read-write_example =
    read-write {E = Error} (replicate 3 7) (replicate 5 7) (replicate 8 7) 0x1234 0x12345678
      0xf123456789abcdef (omega arith) (omega arith) (omega arith) (omega arith) (omega arith)
      (omega arith)
