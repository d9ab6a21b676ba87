-- ===== src/Golexer/Quoted.antt =====
-- The matchers of quoted text: golexer/matcher_string.go and matcher_backticks.go.
use cellorigin.Base.{
  ℕ, zero, suc, ◌-◌, List, [], ◌∷◌, ◌++◌, none, some, Bool, true, false, ◌==◌, ◌||◌, if◌then◌else◌,
  Outcome, ok, panic, ◌>>=◌,
}
use cellorigin.Golexer.Tokenizer.{
  LexError, Tokenizer, current, consume_one, string_range, new_token,
}
use cellorigin.Golexer.Matchers.{Matched, fuel_of}

-- The loop of the back tick matcher.
unfoldable pub to_back_tick : ℕ → Tokenizer → Outcome LexError Tokenizer
unfolding current consume_one
to_back_tick zero tz = panic
to_back_tick (suc fuel) tz =
    let rest = to_back_tick fuel (consume_one tz) in
    if current tz == b'`' then ok (consume_one tz) else if current tz == 0 then ok tz else rest

unfoldable pub match_back_ticks : ℕ → Tokenizer → Matched
unfolding to_back_tick fuel_of current consume_one string_range new_token
match_back_ticks id tz =
    if current tz == b'`'
    then (to_back_tick (fuel_of tz) (consume_one tz) >>= λ tz'.
        string_range (consume_one tz).index (tz'.index - 1) tz' >>= λ v.
        ok (tz', some (new_token id tz' v [])))
    else ok (tz, none)

-- What is written for a rune behind a backslash.
unfoldable pub escaped : ℕ → List ℕ
escaped c =
    if c == b'n'
    then 10 ∷ []
    else if c == b'r'
    then 13 ∷ []
    else if (c == 0x22) || (c == 0x27)
    then c ∷ []
    else 0x5c ∷ c ∷ []

-- The loop of the string matcher, with the quote, `escaping` and the builder.
unfoldable pub to_quote : ℕ → ℕ → Bool → List ℕ → Tokenizer → Outcome LexError (Tokenizer × List ℕ)
unfolding current consume_one escaped
to_quote quote zero escaping builder tz = panic
to_quote quote (suc fuel) true builder tz =
    let built = builder ++ escaped (current tz) in
    let rest = to_quote quote fuel false built (consume_one tz) in
    if (current (consume_one tz) == 10) || (current (consume_one tz) == 0)
    then ok (consume_one tz, built)
    else rest
to_quote quote (suc fuel) false builder tz =
    let slash = current tz == 0x5c in
    let built = if slash then builder else builder ++ current tz ∷ [] in
    let rest = to_quote quote fuel slash built (consume_one tz) in
    if current tz == quote
    then ok (tz, builder)
    else if (current (consume_one tz) == 10) || (current (consume_one tz) == 0)
    then ok (consume_one tz, built)
    else rest

unfoldable pub match_string : ℕ → Tokenizer → Matched
unfolding to_quote fuel_of current consume_one string_range new_token
match_string id tz =
    if (current tz == 0x22) || (current tz == 0x27)
    then (to_quote (current tz) (fuel_of tz) false [] (consume_one tz) >>= λ (tz', v).
        string_range tz.index (consume_one tz').index (consume_one tz') >>= λ raw.
        ok (consume_one tz', some (new_token id (consume_one tz') v raw)))
    else ok (tz, none)
