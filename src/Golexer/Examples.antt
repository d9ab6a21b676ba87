-- ===== src/Golexer/Examples.antt =====
-- The matchers at a short source.
use cellorigin.Base.{ℕ, refl, [], ◌∷◌, Bool, true, leb, ◌&&◌}
use cellorigin.Golexer.Tokenizer.{Tokenizer, new_tokenizer}
use cellorigin.Golexer.Matchers.{
  match_identifier, match_numeral, match_unix_comment, match_c_comment,
}
use cellorigin.Golexer.Matchers.Ends.{MovesOn, matchers-MovesOn}

abbrev is_letter : ℕ → Bool
is_letter c = leb b'a' c && leb c b'z'

abbrev is_digit : ℕ → Bool
is_digit c = leb b'0' c && leb c b'9'

abbrev start : Tokenizer
start = new_tokenizer (b'-' ∷ b'1' ∷ b'.' ∷ b'5' ∷ b' ' ∷ []) 1 1

matchers-MovesOn_example :
    MovesOn start (match_identifier is_letter is_digit 1 start)
    × MovesOn start (match_numeral is_letter is_digit true 1 start)
    × MovesOn start (match_unix_comment 1 start)
    × MovesOn start (match_c_comment 1 start)
matchers-MovesOn_example = matchers-MovesOn is_letter is_digit refl refl 1 true start
