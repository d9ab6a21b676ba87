-- ===== src/Golexer/Matchers.antt =====
-- The matchers of golexer: each gives no token where it does not match, and moves the tokenizer. A loop
-- runs on fuel, for which the length of the source is enough: it ends behind the source at the latest,
-- where the rune is zero.
pub mod Ends
use cellorigin.Base.{
  ℕ, zero, suc, ◌+◌, ◌-◌, List, [], ◌∷◌, ◌++◌, Option, none, some, Bool, true, false, ltb, leb,
  ◌==◌, ◌&&◌, ◌||◌, not, if◌then◌else◌, length, Outcome, ok, err, panic, ◌>>=◌,
}
use cellorigin.Golexer.Tokenizer.{
  LexError, invalid_numeral, Tokenizer, peek, current, consume_multi, consume_one, increase_line,
  string_range, Token, new_token,
}

abbrev pub Matched : Type 0
Matched = Outcome LexError (Tokenizer × Option Token)

-- `for { tz.ConsumeOne(); if !p(tz.Current()) { break } }`
unfoldable pub consume_while : (ℕ → Bool) → ℕ → Tokenizer → Outcome LexError Tokenizer
unfolding consume_one current
consume_while p zero tz = panic
consume_while p (suc fuel) tz =
    let rest = consume_while p fuel (consume_one tz) in
    if p (current (consume_one tz)) then rest else ok (consume_one tz)

unfoldable pub fuel_of : Tokenizer → ℕ
fuel_of tz = suc (length tz.src)

-- The text from `begin` to where the tokenizer is.
unfoldable pub token_from : ℕ → ℕ → Tokenizer → Matched
unfolding string_range new_token
token_from id begin tz =
    string_range begin tz.index tz >>= λ v. ok (tz, some (new_token id tz v []))

abbrev pub goes_on : ℕ → Bool
goes_on c = not ((c == 10) || (c == 0))

-- The line comments behind their mark.
unfoldable pub comment_from : ℕ → Tokenizer → Matched
unfolding consume_while token_from fuel_of consume_one
comment_from id tz =
    consume_while goes_on (fuel_of tz) (consume_one tz) >>= token_from id (consume_one tz).index

unfoldable pub match_unix_comment : ℕ → Tokenizer → Matched
unfolding comment_from current
match_unix_comment id tz = if current tz == b'#' then comment_from id tz else ok (tz, none)

unfoldable pub match_c_comment : ℕ → Tokenizer → Matched
unfolding comment_from current peek
match_c_comment id tz =
    if (current tz == b'/') && (peek 1 tz == b'/') then comment_from id tz else ok (tz, none)

module _ (is_letter is_digit : ℕ → Bool) where
  abbrev pub is_word : ℕ → Bool
  is_word c = (is_letter c || is_digit c) || (c == b'_')

  unfoldable pub match_identifier : ℕ → Tokenizer → Matched
  unfolding consume_while token_from fuel_of current
  match_identifier id tz =
      if is_letter (current tz) || (current tz == b'_')
      then consume_while is_word (fuel_of tz) tz >>= token_from id tz.index
      else ok (tz, none)

  -- The digits behind a point: one at least.
  unfoldable pub fraction : Tokenizer → Outcome LexError Tokenizer
  unfolding consume_while fuel_of current consume_one
  fraction tz =
      if is_digit (current (consume_one tz))
      then consume_while is_digit (fuel_of tz) tz
      else err invalid_numeral

  unfoldable pub after_digits : ℕ → ℕ → Tokenizer → Matched
  unfolding fraction token_from current
  after_digits id begin tz =
      if current tz == b'.' then (fraction tz >>= token_from id begin) else token_from id begin tz

  unfoldable pub match_numeral : Bool → ℕ → Tokenizer → Matched
  unfolding consume_while fuel_of after_digits current
  match_numeral negative id tz =
      if is_digit (current tz) || (negative && (current tz == b'-'))
      then consume_while is_digit (fuel_of tz) tz >>= after_digits id tz.index
      else ok (tz, none)

  unfoldable pub is_sign : ℕ → Bool
  is_sign c =
      not (is_letter c)
      && (not (is_digit c) && (not (c == b' ') && (not (c == 13) && not (c == 10))))

  unfoldable pub is_keyword : ℕ → ℕ → Bool
  is_keyword c i = (is_letter c || (c == b'_')) || (not (i == 0) && is_digit c)

  -- The loop over a word, from its rune `i` on.
  unfoldable pub same_word : (ℕ → ℕ → Bool) → List ℕ → ℕ → Tokenizer → Bool
  unfolding peek
  same_word good [] i tz = true
  same_word good (c ∷ word) i tz = good c i && ((peek i tz == c) && same_word good word (i + 1) tz)

  unfoldable pub match_word : (ℕ → ℕ → Bool) → List ℕ → ℕ → Tokenizer → Matched
  unfolding same_word consume_multi new_token
  match_word good word id tz =
      if leb (tz.index + length word) (length tz.src) && same_word good word 0 tz
      then ok (
        consume_multi (length word) tz,
        some (new_token id (consume_multi (length word) tz) word []),
      )
      else ok (tz, none)

  unfoldable pub match_keyword : List ℕ → ℕ → Tokenizer → Matched
  unfolding match_word is_keyword
  match_keyword word = match_word is_keyword word

  unfoldable pub match_sign : List ℕ → ℕ → Tokenizer → Matched
  unfolding match_word is_sign
  match_sign word = match_word (λ c i. is_sign c) word

unfoldable pub match_unknown : ℕ → Tokenizer → Matched
unfolding current consume_one token_from
match_unknown id tz =
    if current tz == 0 then ok (tz, none) else token_from id tz.index (consume_one tz)

-- The loop of the white space matcher: how many runes, and their sum.
unfoldable pub is_white_space : ℕ → Bool
is_white_space c = (c == b' ') || (c == 9)

unfoldable pub white_space : ℕ → ℕ → ℕ → Tokenizer → Outcome LexError (ℕ × ℕ)
unfolding peek is_white_space
white_space zero count ret tz = panic
white_space (suc fuel) count ret tz =
    let rest = white_space fuel (count + 1) (ret + peek count tz) tz in
    if is_white_space (peek count tz) then rest else ok (count, ret)

unfoldable pub match_white_space : ℕ → Tokenizer → Matched
unfolding white_space fuel_of consume_multi new_token
match_white_space id tz = white_space (fuel_of tz) 0 0 tz >>= λ (count, ret).
    if count == 0
    then ok (tz, none)
    else ok (consume_multi count tz, some (new_token id (consume_multi count tz) (ret ∷ []) []))

-- The loop of the line end matcher, which moves the line as it looks ahead.
unfoldable pub line_ends : ℕ → ℕ → Tokenizer → Outcome LexError (ℕ × Tokenizer)
unfolding peek increase_line
line_ends zero count tz = panic
line_ends (suc fuel) count tz =
    let rest = line_ends fuel (count + 1) (if peek count tz == 10 then increase_line tz else tz) in
    if (peek count tz == 10) || (peek count tz == 13) then rest else ok (count, tz)

unfoldable pub match_line_end : ℕ → Tokenizer → Matched
unfolding line_ends fuel_of consume_multi new_token
match_line_end id tz = line_ends (fuel_of tz) 0 tz >>= λ (count, tz').
    if count == 0
    then ok (tz', none)
    else ok (consume_multi count tz', some (new_token id (consume_multi count tz') (13 ∷ []) []))
