-- ===== src/Gosproto/Pack/Runs.antt =====
-- The cases of gosproto/pack_test.go.
use cellorigin.Base.{ℕ, List, [], ◌∷◌, ◌++◌, ◌≡◌, refl, replicate, ok, err}
use cellorigin.Gosproto.Error.{unpack}
use cellorigin.Gosproto.Words.{store, load}
use cellorigin.Gosproto.Pack.{
  pack, pack_loop, pack_start, pack_round, pack_finish, slice_from, slice_to, pack_segment,
  segment_loop, segment_result, after_segment, flush, write_ff, zero_fill, copy, unpack_bytes,
  unpack_loop, unpack_round, unpack_bits,
}

abbrev simple_unpacked : List ℕ
simple_unpacked =
    0x08 ∷ 0 ∷ 0 ∷ 0 ∷ 0x03 ∷ 0 ∷ 0x02 ∷ 0 ∷ 0x19 ∷ 0 ∷ 0 ∷ 0 ∷ 0xaa ∷ 0x01 ∷ 0 ∷ 0 ∷ []

abbrev simple_packed : List ℕ
simple_packed = 0x51 ∷ 0x08 ∷ 0x03 ∷ 0x02 ∷ 0x31 ∷ 0x19 ∷ 0xaa ∷ 0x01 ∷ []

abbrev ff_unpacked : List ℕ
ff_unpacked = replicate 30 0x8a ++ 0 ∷ 0 ∷ []

simple_pack : pack simple_unpacked ≡ ok simple_packed
unfolding pack pack_loop pack_start pack_round pack_finish slice_from slice_to pack_segment
    segment_loop segment_result after_segment flush write_ff zero_fill copy store
simple_pack = refl

ff_pack : pack ff_unpacked ≡ ok (0xff ∷ 0x03 ∷ ff_unpacked)
unfolding pack pack_loop pack_start pack_round pack_finish slice_from slice_to pack_segment
    segment_loop segment_result after_segment flush write_ff zero_fill copy store
ff_pack = refl

total_pack : pack (simple_unpacked ++ ff_unpacked) ≡ ok (simple_packed ++ 0xff ∷ 0x03 ∷ ff_unpacked)
unfolding pack pack_loop pack_start pack_round pack_finish slice_from slice_to pack_segment
    segment_loop segment_result after_segment flush write_ff zero_fill copy store
total_pack = refl

total_unpack :
    unpack_bytes (simple_packed ++ 0xff ∷ 0x03 ∷ ff_unpacked) ≡ ok (simple_unpacked ++ ff_unpacked)
unfolding unpack_bytes unpack_loop unpack_round unpack_bits load
total_unpack = refl

-- A run that is cut short.
cut_unpack : unpack_bytes (0xff ∷ 0x01 ∷ 1 ∷ 2 ∷ []) ≡ err unpack
unfolding unpack_bytes unpack_loop unpack_round unpack_bits load
cut_unpack = refl
