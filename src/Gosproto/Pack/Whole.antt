-- ===== src/Gosproto/Pack/Whole.antt =====
-- `Pack` as a whole: it never indexes outside its buffer, and what it returns is in the packed format.
use cellorigin.Base.{
  ℕ, zero, suc, ◌+◌, ◌-◌, ◌*◌, ◌/◌, ◌<◌, ◌≤◌, ◌≡◌, refl, sym, ap, ◌∙◌, arith, List, [], ◌∷◌, ◌++◌,
  append-nil, append_assoc, length, drop, replicate, length-append, length-replicate, drop-append,
  ok, ◌>>=◌, inl, inr, All, lt_or_ge, subst, subst₂, All-front, All-back,
}
use cellorigin.Base.Bits.{IsByte}
use cellorigin.Gosproto.Pack.{
  PackState, pack_round, pack_loop, pack_start, pack, max_size, unpack_bytes,
}
use cellorigin.Gosproto.Pack.Format.{Packed, unpack_bytes-Packed}
use cellorigin.Gosproto.Pack.Steps.{pad, Inv}
use cellorigin.Gosproto.Pack.Loop.{round-Inv, finish-Inv, next_segment}

-- Zeros up to a whole number of segments.
abbrev pub pad8 : List ℕ → List ℕ
pad8 src = pad ((length src + 7) / 8) src

pad8-append : (seg rest : List ℕ) → length seg ≡ 8 → pad8 (seg ++ rest) ≡ seg ++ pad8 rest
pad8-append seg rest h =
    let e : 8 * ((length (seg ++ rest) + 7) / 8) - length (seg ++ rest)
        ≡ 8 * ((length rest + 7) / 8) - length rest =
      omega (arith, length-append seg rest) in
    rw e (append_assoc seg rest _)

pad8_short : (seg : List ℕ) → 0 < length seg → length seg ≤ 8 → pad8 seg ≡ pad 1 seg
pad8_short seg pos le = let e : (length seg + 7) / 8 ≡ 1 = omega arith in rw e

pad_one : (seg : List ℕ) → length seg ≡ 8 → pad 1 seg ≡ seg
pad_one seg h = let e : 8 - length seg ≡ 0 = omega arith in rw (e, append-nil)

loop_last :
    (fuel v : ℕ) (src : List ℕ) (s s' : PackState)
    → pack_round s (v ∷ src) ≡ ok s'
    → length (v ∷ src) ≤ 8
    → pack_loop (suc fuel) s (v ∷ src) ≡ ok s'
unfolding pack_loop
loop_last fuel v src s s' e h = rw e (ground arith)

loop_more :
    (fuel v : ℕ) (src rest : List ℕ) (s s' : PackState)
    → pack_round s (v ∷ src) ≡ ok s'
    → 8 < length (v ∷ src)
    → drop 8 (v ∷ src) ≡ rest
    → pack_loop (suc fuel) s (v ∷ src) ≡ pack_loop fuel s' rest
unfolding pack_loop
loop_more fuel v src rest s s' e h d = rw e (ground arith)

nil_of_length : (xs : List ℕ) → length xs ≡ 0 → xs ≡ []
nil_of_length [] h = refl
nil_of_length (x ∷ xs) h = absurd (omega arith)

module _ (size total : ℕ) (sized : size ≡ max_size total) where
  abbrev Done : ℕ → List ℕ → List ℕ → PackState → Type 0
  Done fuel front src s =
      (s' : PackState) × (pack_loop fuel s src ≡ ok s') × Inv size (front ++ pad8 src) [] s'

  -- The last round, and a round with more behind it, on a slice that is split already.
  Done-last :
      (fuel v : ℕ) (src seg rest front : List ℕ) (s s1 : PackState)
      → v ∷ src ≡ seg ++ rest
      → rest ≡ []
      → 0 < length seg
      → length seg ≤ 8
      → pack_round s (v ∷ src) ≡ ok s1
      → Inv size (front ++ pad 1 seg) rest s1
      → Done (suc fuel) front (v ∷ src) s
  Done-last fuel v src seg rest front s s1 e none pos le r inv =
      let whole : v ∷ src ≡ seg = e ∙ ap (λ t. seg ++ t) none ∙ append-nil seg in
      (
        s1,
        loop_last fuel v src s s1 r (omega (arith, ap (length {A = ℕ}) whole)),
        subst₂ (λ a b. Inv size (front ++ a) b s1)
            (sym (pad8_short seg pos le) ∙ ap pad8 (sym whole)) none inv,
      )

  Done-more :
      (fuel v : ℕ) (src seg rest front : List ℕ) (s s1 : PackState)
      → v ∷ src ≡ seg ++ rest
      → length seg ≡ 8
      → 0 < length rest
      → pack_round s (v ∷ src) ≡ ok s1
      → Done fuel (front ++ pad 1 seg) rest s1
      → Done (suc fuel) front (v ∷ src) s
  Done-more fuel v src seg rest front s s1 e l pos r (s2, run, inv) = (
    s2,
    loop_more fuel v src rest s s1 r (omega (arith, ap (length {A = ℕ}) e, length-append seg rest))
          (ap (drop 8) e ∙ drop-append 8 seg rest l)
        ∙ run,
    subst (λ t. Inv size t [] s2)
        (append_assoc front (pad 1 seg) (pad8 rest)
          ∙ ap (λ t. front ++ t)
              (ap (λ t. t ++ pad8 rest) (pad_one seg l)
                ∙ sym (pad8-append seg rest l)
                ∙ ap pad8 (sym e)))
        inv,
  )

  loop-Inv :
      (fuel : ℕ) (front src : List ℕ) (s : PackState)
      → All IsByte src
      → length src ≤ fuel
      → length front + length src ≤ total
      → Inv size front src s
      → Done fuel front src s
  loop-Inv fuel front [] s b h inside v = (s, unfold pack_loop in refl, rw append-nil v)
  loop-Inv zero front (x ∷ src) s b h inside v = absurd (omega arith)
  loop-Inv (suc fuel) front (x ∷ src) s b h inside v =
      let (seg, rest, e, pos, le, last) = next_segment x src in
      let lens : suc (length src) ≡ length seg + length rest =
        ap (length {A = ℕ}) e ∙ length-append seg rest in
      let split : All IsByte (seg ++ rest) = subst (All IsByte) e b in
      let (s1, r, inv) =
        round-Inv size total front seg rest s (All-front IsByte seg rest split) le last sized
          (omega arith) pos (subst (λ t. Inv size front t s) e v) in
      elim last [
        | inl none ↦
            Done-last fuel x src seg rest front s s1 e none pos le (ap (pack_round s) e ∙ r) inv
        | inr full ↦ elim (lt_or_ge 0 (length rest)) [
          | inl more ↦
              Done-more fuel x src seg rest front s s1 e full more (ap (pack_round s) e ∙ r) (
                loop-Inv fuel (front ++ pad 1 seg) rest s1 (All-back IsByte seg rest split)
                  (omega arith)
                  (omega (
                    arith,
                    length-append front (pad 1 seg),
                    ap (length {A = ℕ}) (pad_one seg full),
                  ))
                  inv)
          | inr few ↦
              Done-last fuel x src seg rest front s s1 e (nil_of_length rest (omega arith)) pos le
                (ap (pack_round s) e ∙ r) inv
        ]
      ]

start-Inv : (src : List ℕ) → Inv (max_size (length src)) [] src (pack_start src)
unfolding pack_start
start-Inv src = inl (record {
  out = [];
  junk = replicate (max_size (length src)) 0;
  buffer = refl;
  sized = length-replicate (max_size (length src)) 0;
  at = refl;
  closed = refl;
  holds = λ p d t. t;
  small = omega arith;
})

-- On any bytes `Pack` returns (no index leaves its buffer), and what it returns is in the packed
-- format and stands for the bytes with zeros up to a whole number of segments.
pub pack-Packed :
    (src : List ℕ) → All IsByte src → (p : List ℕ) × (pack src ≡ ok p) × Packed p (pad8 src)
unfolding pack
pack-Packed src b =
    let (s, r, v) =
      loop-Inv (max_size (length src)) (length src) refl (length src) [] src (pack_start src) b
        (omega arith) (omega arith) (start-Inv src) in
    let (p, f, t) = finish-Inv (max_size (length src)) (pad8 src) s v in (p, rw r f, t)

-- `Unpack` gives back what `Pack` was given, with zeros up to a whole number of segments.
pub unpack-pack : (src : List ℕ) → All IsByte src → (pack src >>= unpack_bytes) ≡ ok (pad8 src)
unpack-pack src b = let (p, e, t) = pack-Packed src b in rw e (unpack_bytes-Packed t)
