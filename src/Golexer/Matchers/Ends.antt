-- ===== src/Golexer/Matchers/Ends.antt =====
-- The loops of the matchers end (golexer/matcher_identifier.go, matcher_numeral.go and the comments).
use cellorigin.Base.{
  ℕ, zero, suc, ◌+◌, ◌<◌, ◌≤◌, ◌≡◌, refl, sym, ap, ◌∙◌, subst, arith, List, [], ◌∷◌, none, some,
  Bool, true, false, ltb, ltb→lt, leb, ◌==◌, ◌&&◌, ◌||◌, if◌then◌else◌, length, get_elem?, Outcome,
  ok, err, panic, ◌>>=◌, inl, inr, Bool-cases,
}
use cellorigin.Golexer.Tokenizer.{
  LexError, invalid_numeral, Tokenizer, rune_or, end_of, current, peek, consume_one, string_range,
}
use cellorigin.Golexer.Matchers.{
  Matched, consume_while, fuel_of, token_from, is_word, match_identifier, goes_on, comment_from,
  match_unix_comment, match_c_comment, fraction, after_digits, match_numeral,
}

get_elem?-beyond : (src : List ℕ) (i : ℕ) → length src ≤ i → rune_or (get_elem? src i) ≡ 0
get_elem?-beyond [] i h = refl
get_elem?-beyond (c ∷ src) zero h = absurd (omega arith)
get_elem?-beyond (c ∷ src) (suc i) h = get_elem?-beyond src i (omega arith)

-- A later place in the same source.
abbrev IsLater : Tokenizer → Tokenizer → Type 0
IsLater tz tz' = (tz'.src ≡ tz.src) × (tz.index < tz'.index)

within :
    (p : ℕ → Bool) (src : List ℕ) (i : ℕ)
    → p 0 ≡ false
    → p (rune_or (get_elem? src i)) ≡ true
    → i < length src
within p src i z e = elim (Bool-cases (ltb i (length src))) [
  | inl l ↦ ltb→lt i (length src) l
  | inr l ↦ let gone = ap p (get_elem?-beyond src i (ground arith)) in absurd (cc)
]

consume_while-IsLater :
    (p : ℕ → Bool) (fuel : ℕ) (tz : Tokenizer)
    → p 0 ≡ false
    → 0 < fuel
    → length tz.src ≤ fuel + tz.index
    → (tz' : Tokenizer) × (consume_while p fuel tz ≡ ok tz') × IsLater tz tz'
unfolding consume_while current consume_one
consume_while-IsLater p zero tz z f h = absurd (omega arith)
consume_while-IsLater p (suc fuel) tz z f h = elim (Bool-cases (p (current (consume_one tz)))) [
  | inl e ↦
      let inside = within p tz.src (tz.index + 1) z e in
      let (tz', r, (s, l)) =
        consume_while-IsLater p fuel (consume_one tz) z (omega arith) (omega arith) in
      (tz', rw e r, (s, omega arith))
  | inr e ↦ (consume_one tz, rw e refl, (refl, omega arith))
]

-- No panic: no token and no move, a token and a move, or an error.
abbrev pub MovesOn : Tokenizer → Matched → Type 0
MovesOn tz (ok (tz', none)) = tz' ≡ tz
MovesOn tz (ok (tz', some t)) = IsLater tz tz'
MovesOn tz (err e) = Unit
MovesOn tz panic = ⊥

token_from-MovesOn :
    (id begin : ℕ) (tz tz' : Tokenizer)
    → IsLater tz tz'
    → begin ≤ tz'.index
    → begin ≤ length tz.src
    → MovesOn tz (token_from id begin tz')
unfolding token_from string_range
token_from-MovesOn id begin tz tz' (s, l) h k =
    let room : leb begin (end_of tz'.index (length tz'.src)) ≡ true = rw s (ground arith) in
    rw room (s, l)

loop-MovesOn :
    (p : ℕ → Bool) (start tz : Tokenizer) (next : Tokenizer → Matched)
    → p 0 ≡ false
    → ((tz' : Tokenizer) → IsLater tz tz' → MovesOn start (next tz'))
    → MovesOn start (consume_while p (fuel_of tz) tz >>= next)
unfolding fuel_of
loop-MovesOn p start tz next z k =
    let (tz', r, l) = consume_while-IsLater p (fuel_of tz) tz z (omega arith) (omega arith) in
    subst (λ o. MovesOn start (o >>= next)) (sym r) (k tz' l)

if-MovesOn :
    (b : Bool) (tz : Tokenizer) (m : Matched)
    → (b ≡ true → MovesOn tz m)
    → MovesOn tz (if b then m else ok (tz, none))
if-MovesOn true tz m h = h refl
if-MovesOn false tz m h = refl

if-either :
    (b : Bool) (tz : Tokenizer) (m m' : Matched)
    → MovesOn tz m
    → MovesOn tz m'
    → MovesOn tz (if b then m else m')
if-either true tz m m' h k = h
if-either false tz m m' h k = k

or_error-MovesOn :
    (b : Bool) (start : Tokenizer) (o : Outcome LexError Tokenizer) (next : Tokenizer → Matched)
    → MovesOn start (o >>= next)
    → MovesOn start ((if b then o else err invalid_numeral) >>= next)
or_error-MovesOn true start o next h = h
or_error-MovesOn false start o next h = tt

comment_from-MovesOn :
    (id : ℕ) (tz : Tokenizer) → tz.index < length tz.src → MovesOn tz (comment_from id tz)
unfolding comment_from consume_one
comment_from-MovesOn id tz h =
    loop-MovesOn goes_on tz (consume_one tz) (token_from id (tz.index + 1)) refl (λ tz' l.
      token_from-MovesOn id (tz.index + 1) tz tz' (l.0, omega (arith, l.1)) (omega (arith, l.1))
        (omega arith))

unix_comment-MovesOn : (id : ℕ) (tz : Tokenizer) → MovesOn tz (match_unix_comment id tz)
unfolding match_unix_comment current
unix_comment-MovesOn id tz =
    if-MovesOn _ tz _
      (λ e. comment_from-MovesOn id tz (within (λ c. c == b'#') tz.src tz.index refl e))

c_comment-MovesOn : (id : ℕ) (tz : Tokenizer) → MovesOn tz (match_c_comment id tz)
unfolding match_c_comment current peek
c_comment-MovesOn id tz =
    if-MovesOn _ tz _ (λ e.
      comment_from-MovesOn id tz (within (λ c. c == b'/') tz.src tz.index refl (ground arith)))

module _ (is_letter is_digit : ℕ → Bool) (letter0 : is_letter 0 ≡ false)
    (digit0 : is_digit 0 ≡ false) where
  identifier-MovesOn :
      (id : ℕ) (tz : Tokenizer) → MovesOn tz (match_identifier is_letter is_digit id tz)
  unfolding match_identifier current
  identifier-MovesOn id tz = if-MovesOn _ tz _ (λ e.
      let inside = within (λ c. is_letter c || (c == b'_')) tz.src tz.index (rw letter0 refl) e in
      loop-MovesOn (is_word is_letter is_digit) tz tz (token_from id tz.index)
        (rw (letter0, digit0) refl)
        (λ tz' l. token_from-MovesOn id tz.index tz tz' l (omega (arith, l.1)) (omega arith)))

  zero_numeral : (negative : Bool) → (is_digit 0 || (negative && (0 == b'-'))) ≡ false
  zero_numeral true = rw digit0 refl
  zero_numeral false = rw digit0 refl

  fraction-MovesOn :
      (id begin : ℕ) (start tz : Tokenizer)
      → IsLater start tz
      → begin ≤ start.index
      → begin ≤ length start.src
      → MovesOn start (fraction is_letter is_digit tz >>= token_from id begin)
  unfolding fraction
  fraction-MovesOn id begin start tz (s, l) b k =
      or_error-MovesOn (is_digit (current (consume_one tz))) start _ (token_from id begin) (
        loop-MovesOn is_digit start tz (token_from id begin) digit0 (λ tz' l'.
          token_from-MovesOn id begin start tz' (l'.0 ∙ s, omega (arith, l'.1))
            (omega (arith, l'.1)) k))

  numeral-MovesOn :
      (negative : Bool) (id : ℕ) (tz : Tokenizer)
      → MovesOn tz (match_numeral is_letter is_digit negative id tz)
  unfolding match_numeral after_digits
  numeral-MovesOn negative id tz = if-MovesOn _ tz _ (λ e.
      let inside =
        within (λ c. is_digit c || (negative && (c == b'-'))) tz.src tz.index
          (zero_numeral negative) e in
      loop-MovesOn is_digit tz tz (after_digits is_letter is_digit id tz.index) digit0 (λ tz' l.
        if-either (current tz' == b'.') tz _ _
          (fraction-MovesOn id tz.index tz tz' l (omega arith) (omega arith))
          (token_from-MovesOn id tz.index tz tz' l (omega (arith, l.1)) (omega arith))))

  -- In every place of every source, the matchers of identifiers, of numbers and of both kinds of line
  -- comments end without a panic: with no token and without a move, with a token and a move forward, or
  -- with an error. The rune zero is neither a letter nor a digit.
  pub matchers-MovesOn :
      (id : ℕ) (negative : Bool) (tz : Tokenizer)
      → MovesOn tz (match_identifier is_letter is_digit id tz)
        × MovesOn tz (match_numeral is_letter is_digit negative id tz)
        × MovesOn tz (match_unix_comment id tz)
        × MovesOn tz (match_c_comment id tz)
  matchers-MovesOn id negative tz = (
    identifier-MovesOn id tz,
    numeral-MovesOn negative id tz,
    unix_comment-MovesOn id tz,
    c_comment-MovesOn id tz,
  )
