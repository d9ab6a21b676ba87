-- ===== src/Golexer/Lexer.antt =====
-- golexer/lexer.go: the matchers in their order, and the reading of a token.
use cellorigin.Base.{
  ℕ, zero, suc, List, [], ◌∷◌, ◌++◌, Option, none, some, Bool, true, false, ◌==◌, if◌then◌else◌,
  Outcome, ok, err, panic, ◌>>=◌,
}
use cellorigin.Golexer.Tokenizer.{LexError, Tokenizer, Token, eof, new_tokenizer}
use cellorigin.Golexer.Matchers.{Matched}

pub record MatcherMeta : Type 0 where
  pub m : Tokenizer → Matched
  pub ignore : Bool

-- The position of the lexer is that of its tokenizer.
pub record Lexer : Type 0 where
  pub matchers : List MatcherMeta
  pub running : Bool
  pub tz : Tokenizer

unfoldable pub new_lexer : Lexer
new_lexer = record { matchers = []; running = false; tz = new_tokenizer [] 1 1 }

unfoldable pub start : List ℕ → Lexer → Lexer
start src lexer = record lexer { running = true; tz = new_tokenizer src lexer.tz.line lexer.tz.col }

unfoldable pub add_matcher : (Tokenizer → Matched) → Lexer → Lexer
add_matcher m lexer = record lexer {
  matchers = lexer.matchers ++ record { m = m; ignore = false } ∷ [];
}

unfoldable pub add_ignore_matcher : (Tokenizer → Matched) → Lexer → Lexer
add_ignore_matcher m lexer = record lexer {
  matchers = lexer.matchers ++ record { m = m; ignore = true } ∷ [];
}

-- The loop over the matchers: what they leave, and a token that is not ignored.
unfoldable pub try_matchers : List MatcherMeta → Tokenizer → Matched
try_matchers [] tz = ok (tz, none)
try_matchers (mm ∷ matchers) tz = mm.m tz >>= λ (tz', t). elim t [
  | none ↦ try_matchers matchers tz'
  | some token ↦ if mm.ignore then ok (tz', none) else ok (tz', some token)
]

-- The loop of `readToken`: no token is the end of the source. Fuel stands for the rounds.
unfoldable pub read_rounds : ℕ → List MatcherMeta → Tokenizer → Matched
unfolding try_matchers eof
read_rounds zero matchers tz = panic
read_rounds (suc fuel) matchers tz =
    if eof tz
    then ok (tz, none)
    else (try_matchers matchers tz >>= λ (tz', t). elim t [
      | none ↦ read_rounds fuel matchers tz'
      | some token ↦ ok (tz', some token)
    ])

unfoldable pub read_token : ℕ → List MatcherMeta → Tokenizer → Matched
unfolding read_rounds
read_token fuel [] tz = ok (tz, none)
read_token fuel (mm ∷ matchers) tz = read_rounds fuel (mm ∷ matchers) tz

-- `Read`: the end of the source, or an error, stops the lexer. Where an error leaves the tokenizer is
-- not kept.
unfoldable pub read_end : Lexer → Matched → Lexer × Outcome LexError (Option Token)
read_end lexer (ok (tz, none)) = (record lexer { running = false; tz = tz }, ok none)
read_end lexer (ok (tz, some token)) = (
  record lexer { running = if token.matcher == 0 then false else true; tz = tz },
  ok (some token),
)
read_end lexer (err e) = (record lexer { running = false }, err e)
read_end lexer panic = (lexer, panic)

unfoldable pub read : ℕ → Lexer → Lexer × Outcome LexError (Option Token)
unfolding read_token read_end
read fuel lexer =
    if lexer.running
    then read_end lexer (read_token fuel lexer.matchers lexer.tz)
    else (lexer, ok none)
