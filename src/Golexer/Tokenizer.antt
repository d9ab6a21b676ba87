-- ===== src/Golexer/Tokenizer.antt =====
-- golexer/tokenizer.go, token.go and tokenpos.go: the source, a place in it, and tokens. The position
-- of the lexer, which the tokenizer moves, is kept with it. Text is a list of runes.
use cellorigin.Base.{
  ℕ, ◌+◌, ◌-◌, List, [], Option, none, some, Bool, leb, if◌then◌else◌, length, take, drop,
  get_elem?, Outcome, ok, panic,
}

pub data LexError : Type 0 where
  invalid_numeral : LexError

pub record Tokenizer : Type 0 where
  pub src : List ℕ
  pub index : ℕ
  pub line : ℕ
  pub col : ℕ

abbrev pub rune_or : Option ℕ → ℕ
rune_or none = 0
rune_or (some c) = c

-- Zero behind the end.
unfoldable pub peek : ℕ → Tokenizer → ℕ
peek offset tz = rune_or (get_elem? tz.src (tz.index + offset))

unfoldable pub current : Tokenizer → ℕ
current tz = rune_or (get_elem? tz.src tz.index)

unfoldable pub consume_multi : ℕ → Tokenizer → Tokenizer
consume_multi count tz = record tz { index = tz.index + count; col = tz.col + count }

unfoldable pub consume_one : Tokenizer → Tokenizer
consume_one tz = record tz { index = tz.index + 1; col = tz.col + 1 }

unfoldable pub eof : Tokenizer → Bool
eof tz = leb (length tz.src) tz.index

unfoldable pub increase_line : Tokenizer → Tokenizer
increase_line tz = record tz { line = tz.line + 1; col = 1 }

abbrev pub end_of : ℕ → ℕ → ℕ
end_of last size = if leb last size then last else size

-- `StringRange`: a slice whose end is before its beginning panics.
unfoldable pub string_range : ℕ → ℕ → Tokenizer → Outcome LexError (List ℕ)
string_range begin last tz =
    if leb begin (end_of last (length tz.src))
    then ok (take (end_of last (length tz.src) - begin) (drop begin tz.src))
    else panic

unfoldable pub new_tokenizer : List ℕ → ℕ → ℕ → Tokenizer
new_tokenizer src line col = record { src = src; index = 0; line = line; col = col }

-- A token with the id of its matcher.
pub record Token : Type 0 where
  pub value : List ℕ
  pub raw : List ℕ
  pub matcher : ℕ
  pub line : ℕ
  pub col : ℕ
  pub index : ℕ

abbrev raw_or : List ℕ → List ℕ → List ℕ
raw_or [] v = v
raw_or raw v = raw

-- `NewToken` of a matcher.
unfoldable pub new_token : ℕ → Tokenizer → List ℕ → List ℕ → Token
new_token m tz v raw = record {
  value = v;
  raw = raw_or raw v;
  matcher = m;
  line = tz.line;
  col = tz.col;
  index = tz.index;
}
