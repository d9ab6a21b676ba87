-- ===== src/Gosproto/Layout/Written.antt =====
-- What the loop of `encodeMessage` writes (gosproto/encode.go).
use cellorigin.Base.{
  ℕ, ◌+◌, ◌-◌, ◌*◌, ◌%◌, ◌^◌, ◌<◌, ◌≤◌, ◌≡◌, refl, sym, ap, ◌∙◌, arith, List, [], ◌∷◌, ◌++◌,
  append-nil, append_assoc, Option, none, some, ltb, ltb→lt, lt→ltb, length, All, length-append,
  Outcome, ok, ◌>>=◌, Bool-cases, inl, inr, true, false, map,
}
use cellorigin.Base.Bits.{IsU16}
use cellorigin.Gosproto.Error.{Error}
use cellorigin.Gosproto.Words.RoundTrip.{write_uint32-le_bytes}
use cellorigin.Gosproto.Types.{Coder, SprotoType, Value, Values}
use cellorigin.Gosproto.Encode.{Encoded, skip_tag, push_header, push_skip, push_data, message_loop}
use cellorigin.Gosproto.Encode.Buffers.{chunk}
use cellorigin.Gosproto.Layout.{
  Entry, untagged, absent, embedded, chunked, item, skips, headers_of, body_of, IsLaid,
}

push_header-append :
    (room v : ℕ) (hs : List ℕ) → length hs < room → push_header room hs v ≡ ok (hs ++ v ∷ [])
unfolding push_header
push_header-append room v hs h = ground arith

push_skip-skips :
    (room next t : ℕ) (hs : List ℕ)
    → t < 2 ^ 15
    → length hs < room
    → push_skip room hs (skip_tag next t) ≡ ok (hs ++ skips next t)
unfolding push_skip skip_tag
push_skip-skips room next t hs u h = elim (Bool-cases (ltb next t)) [
  | inl e ↦
      let lt = ltb→lt next t e in
      let same : ((t - next - 1) * 2 + 1) % 65536 ≡ 2 * (t - next) - 1 = omega arith in
      let some_skip : ltb 0 (2 * (t - next) - 1) ≡ true = lt→ltb 0 _ (omega arith) in
      rw (e, same, some_skip) (push_header-append room (2 * (t - next) - 1) hs h)
  | inr e ↦ rw e (ap ok (sym (append-nil hs)))
]

push_data-chunk : (buffer bs : List ℕ) → push_data buffer (some bs) ≡ ok (buffer ++ chunk bs)
unfolding push_data
push_data-chunk buffer bs =
    ap (λ o. o >>= λ len. ok (buffer ++ (len ++ bs))) (write_uint32-le_bytes _ _ (omega arith))

length-skips :
    (next t header : ℕ) (hs : List ℕ)
    → next ≤ t
    → (t + 1) + length hs ≤ 2 ^ 15
    → next + length (skips next t ++ header ∷ hs) ≤ 2 ^ 15
length-skips next t header hs h l = ground arith

skips-IsU16 :
    (next t header : ℕ) (hs : List ℕ)
    → t < 2 ^ 15
    → IsU16 header
    → All IsU16 hs
    → All IsU16 (skips next t ++ header ∷ hs)
skips-IsU16 next t header hs u h a = elim (Bool-cases (ltb next t)) [
  | inl e ↦ rw e (omega arith, (h, a))
  | inr e ↦ rw e (h, a)
]

-- A round of the loop for a field that is present.
message_loop-present :
    (room next t header : ℕ) (d : Option (List ℕ)) (items : List (Option ℕ × Encoded))
    (hs buffer buffer' : List ℕ)
    → t < 2 ^ 15
    → length hs + 2 ≤ room
    → push_data buffer d ≡ ok buffer'
    → message_loop room
        ((some t, record { header = ok (header, false); data_of = ok d }) ∷ items)
        hs
        next
        buffer
      ≡ message_loop room items (hs ++ (skips next t ++ header ∷ [])) (t + 1) buffer'
unfolding message_loop
message_loop-present room next t header d items hs buffer buffer' u h p =
    let short : length (skips next t) ≤ 1 = ground arith in
    rw
      (
        push_skip-skips room next t hs u (omega arith),
        push_header-append room header (hs ++ skips next t)
            (omega (arith, length-append hs (skips next t))),
        p,
      )
      (ap (λ hs'. message_loop room items hs' (t + 1) buffer')
        (append_assoc hs (skips next t) (header ∷ [])))

module _ (dec : ℕ → Coder → Option ℕ → List ℕ → Outcome Error Value) (st : SprotoType)
    (vs : Values) where
  pub message_loop-headers_of :
      (room next : ℕ) (es : List Entry) (hs buffer : List ℕ)
      → IsLaid dec st vs next es
      → length hs + 2 * length es ≤ room
      → message_loop room (map item es) hs next buffer
        ≡ ok (hs ++ headers_of next es, buffer ++ body_of es)
  unfolding message_loop
  message_loop-headers_of room next [] hs buffer w h =
      ap (λ t. ok (t, buffer)) (sym (append-nil hs))
      ∙ ap (λ t. ok (hs ++ [], t)) (sym (append-nil buffer))
  message_loop-headers_of room next (untagged i e ∷ es) hs buffer (b, w) h =
      message_loop-headers_of room next es hs buffer w (omega arith)
  message_loop-headers_of room next (absent i t d ∷ es) hs buffer (b, w) h =
      message_loop-headers_of room next es hs buffer w (omega arith)
  message_loop-headers_of room next (embedded i t sf v x ∷ es) hs buffer ((_, u, _, _), _, _, w) h =
      let mid = skips next t ++ (2 * (x + 1)) ∷ [] in
      let short : length mid ≤ 2 = ground arith in
      message_loop-present room next t (2 * (x + 1)) none (map item es) hs buffer buffer u
        (omega arith) refl
      ∙ (message_loop-headers_of room (t + 1) es (hs ++ mid) buffer w
            (omega (arith, length-append hs mid))
          ∙ ap (λ hs'. ok (hs', buffer ++ body_of es))
              (append_assoc hs mid (headers_of (t + 1) es)
                ∙ ap (◌++◌ hs) (append_assoc (skips next t) _ (headers_of (t + 1) es))))
  message_loop-headers_of room next (chunked i t sf v bs ∷ es) hs buffer ((_, u, _, _), _, _, w) h =
      let mid = skips next t ++ 0 ∷ [] in
      let short : length mid ≤ 2 = ground arith in
      message_loop-present room next t 0 (some bs) (map item es) hs buffer (buffer ++ chunk bs) u
        (omega arith) (push_data-chunk buffer bs)
      ∙ (message_loop-headers_of room (t + 1) es (hs ++ mid) (buffer ++ chunk bs) w
            (omega (arith, length-append hs mid))
          ∙ (ap (λ hs'. ok (hs', (buffer ++ chunk bs) ++ body_of es))
                (append_assoc hs mid (headers_of (t + 1) es)
                  ∙ ap (◌++◌ hs) (append_assoc (skips next t) _ (headers_of (t + 1) es)))
              ∙ ap (λ b. ok (hs ++ headers_of next (chunked i t sf v bs ∷ es), b))
                  (append_assoc buffer (chunk bs) (body_of es))))

  pub headers_of-IsU16 :
      (next : ℕ) (es : List Entry) → IsLaid dec st vs next es → All IsU16 (headers_of next es)
  headers_of-IsU16 next [] w = tt
  headers_of-IsU16 next (untagged i e ∷ es) (b, w) = headers_of-IsU16 next es w
  headers_of-IsU16 next (absent i t d ∷ es) (b, w) = headers_of-IsU16 next es w
  headers_of-IsU16 next (embedded i t sf v x ∷ es) ((_, u, _, _), l, _, w) =
      skips-IsU16 next t _ _ u (omega arith) (headers_of-IsU16 (t + 1) es w)
  headers_of-IsU16 next (chunked i t sf v bs ∷ es) ((_, u, _, _), _, _, w) =
      skips-IsU16 next t _ _ u (omega arith) (headers_of-IsU16 (t + 1) es w)

  -- The tags are below 2 ^ 15, so the number of headers is a uint16.
  pub length-headers_of :
      (next : ℕ) (es : List Entry)
      → IsLaid dec st vs next es
      → next ≤ 2 ^ 15
      → next + length (headers_of next es) ≤ 2 ^ 15
  length-headers_of next [] w h = omega arith
  length-headers_of next (untagged i e ∷ es) (b, w) h = length-headers_of next es w h
  length-headers_of next (absent i t d ∷ es) (b, w) h = length-headers_of next es w h
  length-headers_of next (embedded i t sf v x ∷ es) ((n, u, _, _), l, _, w) h =
      length-skips next t _ _ n (length-headers_of (t + 1) es w (omega arith))
  length-headers_of next (chunked i t sf v bs ∷ es) ((n, u, _, _), _, _, w) h =
      length-skips next t _ _ n (length-headers_of (t + 1) es w (omega arith))
