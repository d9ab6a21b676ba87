-- ===== src/Gosproto/Layout/ReadBack.antt =====
-- `decodeHeader` and the loop of `decodeMessage` on what is written (gosproto/decode.go).
use cellorigin.Base.{
  ℕ, suc, ◌+◌, ◌-◌, ◌*◌, ◌/◌, ◌%◌, ◌^◌, ◌<◌, ◌≤◌, ◌≡◌, refl, sym, ap, ◌∙◌, arith, List, [], ◌∷◌,
  ◌++◌, append_assoc, Option, none, some, ltb, ltb→lt, ◌==◌, if◌then◌else◌, length, length-append,
  Outcome, ok, ◌>>=◌, Bool-cases, inl, inr, true, false, le_bytes,
}
use cellorigin.Base.Bits.{IsU16}
use cellorigin.Gosproto.Error.{Error}
use cellorigin.Gosproto.Words.RoundTrip.{read_uint16-le_bytes}
use cellorigin.Gosproto.Types.{Coder, SprotoType, Value, Values, set_value}
use cellorigin.Gosproto.Encode.Buffers.{chunk, ints, slice_from-append}
use cellorigin.Gosproto.Decode.{Tag, read_tags, tag_data, tags_loop}
use cellorigin.Gosproto.Decode.Slices.{IsShort, read_chunk-chunk}
use cellorigin.Gosproto.Layout.{
  Entry, untagged, absent, embedded, chunked, skips, headers_of, tags_of, body_of, fill, IsLaid,
}

add_zero : (n : ℕ) → n + 0 ≡ n
add_zero n = omega arith

-- A round of the loop of `decodeHeader`, by the header that it reads.
read_tags-step :
    (rounds tag v k : ℕ) (pre more : List ℕ)
    → IsU16 v
    → k ≡ length pre
    → read_tags (suc rounds) (pre ++ (le_bytes 2 v ++ more)) k tag ≡ elim (v % 2 == 0) [
      | false ↦
          read_tags rounds
            (pre ++ (le_bytes 2 v ++ more))
            (k + 2)
            ((tag + (v + 1) % 2 ^ 16 / 2) % 2 ^ 16)
      | true ↦
          read_tags rounds (pre ++ (le_bytes 2 v ++ more)) (k + 2) ((tag + 1) % 2 ^ 16) >>= λ tags.
          ok (record { tag = tag; val = if v == 0 then none else some (v / 2 - 1) } ∷ tags)
    ]
unfolding read_tags
read_tags-step rounds tag v k pre more u e =
    rw (e, slice_from-append pre (le_bytes 2 v ++ more), read_uint16-le_bytes {E = Error} v more u)
      refl

-- A header that stands for tags left out moves to the next field.
read_tags-skip :
    (rounds next t k : ℕ) (pre more : List ℕ)
    → next < t
    → t < 2 ^ 15
    → k ≡ length pre
    → read_tags (suc rounds) (pre ++ (le_bytes 2 (2 * (t - next) - 1) ++ more)) k next
      ≡ read_tags rounds (pre ++ (le_bytes 2 (2 * (t - next) - 1) ++ more)) (k + 2) t
read_tags-skip rounds next t k pre more n u e =
    let v = 2 * (t - next) - 1 in
    let odd : v % 2 ≡ 1 = omega arith in
    let moved : (next + (v + 1) % 2 ^ 16 / 2) % 2 ^ 16 ≡ t = omega arith in
    read_tags-step rounds next v k pre more (omega arith) e ∙ rw (odd, moved) refl

module _ (hs rest : List ℕ) (tags : List Tag) (t h : ℕ) (val : Option ℕ) where
  -- The headers behind a field are read wherever they stand.
  abbrev Reads : Type 0
  Reads =
      (k : ℕ) (pre : List ℕ)
      → k ≡ length pre
      → read_tags (length hs) (pre ++ (ints 2 hs ++ rest)) k (t + 1) ≡ ok tags

  -- A header of a field gives a tag.
  read_tags-header :
      (k : ℕ) (pre : List ℕ)
      → h < 2 ^ 15
      → t < 2 ^ 15
      → (if 2 * h == 0 then none else some (2 * h / 2 - 1)) ≡ val
      → Reads
      → k ≡ length pre
      → read_tags (suc (length hs)) (pre ++ (le_bytes 2 (2 * h) ++ (ints 2 hs ++ rest))) k t
        ≡ ok (record { tag = t; val = val } ∷ tags)
  read_tags-header k pre u l s r e =
      let even : 2 * h % 2 ≡ 0 = omega arith in
      let small : (t + 1) % 2 ^ 16 ≡ t + 1 = omega arith in
      let head = le_bytes 2 (2 * h) in
      let behind =
        ap (λ b. read_tags (length hs) b (k + 2) (t + 1))
          (sym (append_assoc pre head (ints 2 hs ++ rest)))
        ∙ r (k + 2) (pre ++ head) (omega (arith, length-append pre head)) in
      read_tags-step (length hs) t (2 * h) k pre (ints 2 hs ++ rest) (omega arith) e
      ∙ rw (even, small, behind, s) refl

  read_tags-present :
      (next k : ℕ) (pre : List ℕ)
      → next ≤ t
      → t < 2 ^ 15
      → h < 2 ^ 15
      → (if 2 * h == 0 then none else some (2 * h / 2 - 1)) ≡ val
      → Reads
      → k ≡ length pre
      → read_tags
          (length (skips next t ++ (2 * h) ∷ hs))
          (pre ++ (ints 2 (skips next t ++ (2 * h) ∷ hs) ++ rest))
          k
          next
        ≡ ok (record { tag = t; val = val } ∷ tags)
  read_tags-present next k pre n l u s r e = elim (Bool-cases (ltb next t)) [
    | inl f ↦
        let head = le_bytes 2 (2 * (t - next) - 1) in
        let more = le_bytes 2 (2 * h) ++ (ints 2 hs ++ rest) in
        rw f (
          read_tags-skip (suc (length hs)) next t k pre more (ltb→lt next t f) l e
          ∙ (ap (λ b. read_tags (suc (length hs)) b (k + 2) t) (sym (append_assoc pre head more))
              ∙ read_tags-header (k + 2) (pre ++ head) u l s r
                  (omega (arith, length-append pre head))))
    | inr f ↦
        let same : next ≡ t = ground arith in
        rw f (
          ap (read_tags (suc (length hs)) (pre ++ (le_bytes 2 (2 * h) ++ (ints 2 hs ++ rest))) k)
            same
          ∙ read_tags-header k pre u l s r e)
  ]

tag_data-chunk :
    (bs pre more : List ℕ) (total : ℕ)
    → IsShort bs
    → total ≡ length pre
    → tag_data none ((pre ++ chunk bs) ++ more) total ≡ ok (4 + length bs, bs)
unfolding tag_data
tag_data-chunk bs pre more total s e =
    rw (append_assoc pre (chunk bs) more, e, slice_from-append pre (chunk bs ++ more))
      (read_chunk-chunk bs more s)

module _ (dec : ℕ → Coder → Option ℕ → List ℕ → Outcome Error Value) (st : SprotoType)
    (vs : Values) where
  -- `decodeHeader` finds the tags of the fields that are present.
  pub read_tags-tags_of :
      (next k : ℕ) (es : List Entry) (pre rest : List ℕ)
      → IsLaid dec st vs next es
      → k ≡ length pre
      → read_tags
          (length (headers_of next es))
          (pre ++ (ints 2 (headers_of next es) ++ rest))
          k
          next
        ≡ ok (tags_of es)
  unfolding read_tags
  read_tags-tags_of next k [] pre rest w e = refl
  read_tags-tags_of next k (untagged i x ∷ es) pre rest (b, w) e =
      read_tags-tags_of next k es pre rest w e
  read_tags-tags_of next k (absent i t d ∷ es) pre rest (b, w) e =
      read_tags-tags_of next k es pre rest w e
  read_tags-tags_of next k (embedded i t sf v x ∷ es) pre rest ((n, u, _, _), l, _, w) e =
      read_tags-present (headers_of (t + 1) es) rest (tags_of es) t (x + 1) (some x) next k pre n u
        (omega arith) (ground arith) (λ k' pre'. read_tags-tags_of (t + 1) k' es pre' rest w) e
  read_tags-tags_of next k (chunked i t sf v bs ∷ es) pre rest ((n, u, _, _), _, _, w) e =
      read_tags-present (headers_of (t + 1) es) rest (tags_of es) t 0 none next k pre n u
        (omega arith) refl (λ k' pre'. read_tags-tags_of (t + 1) k' es pre' rest w) e

  -- The loop sets the fields that are present, in their order.
  pub tags_loop-fill :
      (fuel : ℕ) (next total : ℕ) (es : List Entry) (pre rest : List ℕ) (cur : Values)
      → IsLaid dec st vs next es
      → length (body_of es) ≤ fuel
      → total ≡ length pre
      → tags_loop (dec fuel) st (tags_of es) (pre ++ (body_of es ++ rest)) total cur
        ≡ ok (total + length (body_of es), fill es cur)
  unfolding tags_loop
  tags_loop-fill fuel next total [] pre rest cur w h e = ap (λ n. ok (n, cur)) (omega arith)
  tags_loop-fill fuel next total (untagged i x ∷ es) pre rest cur (b, w) h e =
      tags_loop-fill fuel next total es pre rest cur w h e
  tags_loop-fill fuel next total (absent i t d ∷ es) pre rest cur (b, w) h e =
      tags_loop-fill fuel next total es pre rest cur w h e
  tags_loop-fill fuel next total (embedded i t sf v x ∷ es) pre rest cur ((_, _, k, _), _, d, w) h
        e =
      rw (k, d fuel)
        (ap
            (λ n.
              tags_loop (dec fuel) st (tags_of es) (pre ++ (body_of es ++ rest)) n
                (set_value cur i v))
            (add_zero total)
          ∙ tags_loop-fill fuel (t + 1) total es pre rest (set_value cur i v) w h e)
  tags_loop-fill fuel next total (chunked i t sf v bs ∷ es) pre rest cur ((_, _, k, _), s, d, w) h
        e =
      let moved = append_assoc pre (chunk bs) (body_of es ++ rest) in
      let same = ap (◌++◌ pre) (append_assoc (chunk bs) (body_of es) rest) ∙ sym moved in
      let enough = length-append (chunk bs) (body_of es) in
      ap (λ b. tags_loop (dec fuel) st (tags_of (chunked i t sf v bs ∷ es)) b total cur) same
      ∙ rw (tag_data-chunk bs pre (body_of es ++ rest) total s.0 e, k, d fuel (omega arith))
          (tags_loop-fill fuel (t + 1) (total + (4 + length bs)) es (pre ++ chunk bs) rest
              (set_value cur i v) w (omega arith) (omega (arith, length-append pre (chunk bs)))
            ∙ ap (λ n. ok (n, fill es (set_value cur i v))) (omega arith))
