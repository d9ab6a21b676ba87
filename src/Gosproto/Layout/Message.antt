-- ===== src/Gosproto/Layout/Message.antt =====
-- A whole message: what `encodeMessage` gives, and `decodeMessage` on it (gosproto/encode.go,
-- gosproto/decode.go).
use cellorigin.Base.{
  ℕ, ◌+◌, ◌*◌, ◌%◌, ◌^◌, ◌<◌, ◌≤◌, ◌≡◌, refl, ap, ◌∙◌, arith, List, [], ◌∷◌, ◌++◌, append_assoc,
  Option, ltb, length, length-append, Outcome, ok, ◌>>=◌, false, map, le_bytes, All, All-append,
}
use cellorigin.Base.Bits.{IsByte}
use cellorigin.Gosproto.Error.{Error}
use cellorigin.Gosproto.Words.RoundTrip.{read_uint16-le_bytes, le_bytes-IsByte}
use cellorigin.Gosproto.Types.{Coder, SprotoType, Value, Values}
use cellorigin.Gosproto.Encode.{Encoded, in_order, assemble}
use cellorigin.Gosproto.Encode.Buffers.{chunk, ints, encode_headers-ints}
use cellorigin.Gosproto.Decode.{Tag, read_tags, decode_header, tags_loop, message_with}
use cellorigin.Gosproto.Decode.Slices.{length-ints}
use cellorigin.Gosproto.Layout.{
  Entry, untagged, absent, embedded, chunked, item, headers_of, tags_of, body_of, fill, IsLaid,
}
use cellorigin.Gosproto.Layout.Written.{
  message_loop-headers_of, headers_of-IsU16, length-headers_of,
}
use cellorigin.Gosproto.Layout.ReadBack.{read_tags-tags_of, tags_loop-fill}

-- The number of headers, and the headers.
abbrev pub header_of : List Entry → List ℕ
header_of es = le_bytes 2 (length (headers_of 0 es)) ++ ints 2 (headers_of 0 es)

abbrev pub message_of : List Entry → List ℕ
message_of es = header_of es ++ body_of es

pub length-header_of : (es : List Entry) → length (header_of es) ≡ 2 + length (headers_of 0 es) * 2
length-header_of es = omega (arith, length-ints 2 (headers_of 0 es))

decode_header-ints :
    (hs more : List ℕ) (tags : List Tag)
    → length hs < 2 ^ 16
    → read_tags (length hs) (le_bytes 2 (length hs) ++ (ints 2 hs ++ more)) 2 0 ≡ ok tags
    → decode_header (le_bytes 2 (length hs) ++ (ints 2 hs ++ more)) ≡ ok (2 + length hs * 2, tags)
unfolding decode_header
decode_header-ints hs more tags u r =
    let chunk = le_bytes 2 (length hs) ++ (ints 2 hs ++ more) in
    let size : length chunk ≡ 2 + (length (ints 2 hs) + length more) =
      omega (arith, length-append (ints 2 hs) more) in
    let two : ltb (length chunk) 2 ≡ false = ground arith in
    let all : ltb (length chunk) (2 + length hs * 2) ≡ false = ground (arith, length-ints 2 hs) in
    rw (two, read_uint16-le_bytes {E = Error} (length hs) (ints 2 hs ++ more) u, all, r) refl

ints-IsByte : (len : ℕ) (ns : List ℕ) → All IsByte (ints len ns)
ints-IsByte len [] = tt
ints-IsByte len (n ∷ ns) =
    All-append IsByte (le_bytes len n) (ints len ns) (le_bytes-IsByte len n) (ints-IsByte len ns)

module _ (dec : ℕ → Coder → Option ℕ → List ℕ → Outcome Error Value) (st : SprotoType)
    (vs : Values) where
  pub assemble-message_of :
      (encs : List Encoded) (es : List Entry)
      → in_order st.fields encs st.order ≡ ok (map item es)
      → IsLaid dec st vs 0 es
      → length es ≤ length st.fields
      → assemble st encs ≡ ok (message_of es)
  unfolding assemble
  assemble-message_of encs es o w l =
      let short = length-headers_of dec st vs 0 es w (omega arith) in
      let count : length (headers_of 0 es) % 2 ^ 16 ≡ length (headers_of 0 es) = omega arith in
      rw
        (
          o,
          message_loop-headers_of dec st vs (length st.fields * 2) 0 es [] [] w (omega arith),
          encode_headers-ints (headers_of 0 es) (length (body_of es))
              (headers_of-IsU16 dec st vs 0 es w),
          count,
        )
        refl

  pub message_with-message_of :
      (fuel : ℕ) (es : List Entry) (rest : List ℕ) (cur : Values)
      → IsLaid dec st vs 0 es
      → length (body_of es) ≤ fuel
      → message_with (dec fuel) st (message_of es ++ rest) cur
        ≡ ok (length (message_of es), fill es cur)
  unfolding message_with
  message_with-message_of fuel es rest cur w l =
      let hs = headers_of 0 es in
      let body = body_of es in
      let head = header_of es in
      let short = length-headers_of dec st vs 0 es w (omega arith) in
      let size = length-header_of es in
      let tags =
        read_tags-tags_of dec st vs 0 2 es (le_bytes 2 (length hs)) (body ++ rest) w refl in
      let total = length-append head body in
      ap (λ chunk. message_with (dec fuel) st chunk cur) (append_assoc head body rest)
      ∙ (ap
            (λ o. o >>= λ (total, tags).
              tags_loop (dec fuel) st tags (head ++ (body ++ rest)) total cur)
            (decode_header-ints hs (body ++ rest) (tags_of es) (omega arith) tags)
          ∙ (tags_loop-fill dec st vs fuel 0 (2 + length hs * 2) es head rest cur w l (omega arith)
              ∙ ap (λ n. ok (n, fill es cur)) (omega arith)))

  body_of-IsByte : (next : ℕ) (es : List Entry) → IsLaid dec st vs next es → All IsByte (body_of es)
  body_of-IsByte next [] w = tt
  body_of-IsByte next (untagged i e ∷ es) (b, w) = body_of-IsByte next es w
  body_of-IsByte next (absent i t d ∷ es) (b, w) = body_of-IsByte next es w
  body_of-IsByte next (embedded i t sf v x ∷ es) (_, _, _, w) = body_of-IsByte (t + 1) es w
  body_of-IsByte next (chunked i t sf v bs ∷ es) (_, s, _, w) =
      All-append IsByte (chunk bs) (body_of es)
        (All-append IsByte (le_bytes 4 (length bs % 2 ^ 32)) bs
          (le_bytes-IsByte 4 (length bs % 2 ^ 32)) s.1)
        (body_of-IsByte (t + 1) es w)

  pub message_of-IsByte : (es : List Entry) → IsLaid dec st vs 0 es → All IsByte (message_of es)
  message_of-IsByte es w =
      let hs = headers_of 0 es in
      All-append IsByte (header_of es) (body_of es)
        (All-append IsByte (le_bytes 2 (length hs)) (ints 2 hs) (le_bytes-IsByte 2 (length hs))
          (ints-IsByte 2 hs))
        (body_of-IsByte 0 es w)
