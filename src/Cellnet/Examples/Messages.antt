-- ===== src/Cellnet/Examples/Messages.antt =====
-- Registered messages, and the chains that dispatch them.
use cellorigin.Base.{
  ℕ, ◌≡◌, ◌↔◌, refl, List, [], ◌∷◌, Option, none, some, ok, err, le_value, le_bytes,
}
use cellorigin.Base.Assoc.{lookup, insert}
use cellorigin.Cellnet.Event.{Event, new_event, recv, clone}
use cellorigin.Cellnet.Meta.{
  Registry, MessageMeta, Codec, fetch_codec, put_meta, register_message_meta, message_meta_by_type,
  message_not_found,
}
use cellorigin.Cellnet.Meta.Consistent.{IsConsistent, register-IsConsistent, register_twice}
use cellorigin.Cellnet.Chain.{Handler, HandlerChain, call, call_all}
use cellorigin.Cellnet.Chain.Runs.{Calls, call-Calls}
use cellorigin.Cellnet.Handlers.{decode_message, encode_message}
use cellorigin.Cellnet.Handlers.Dispatch.{
  chain_for, expected, call-chain_for, Registration, chains, deliver, call_all-deliver,
}
use cellorigin.Cellnet.Handlers.RoundTrip.{decode-encode}
use Prim.Native.String.{String}

-- A codec for numbers; an empty body is an error.
abbrev codec : Codec ℕ
codec = record {
  encode = λ m. some (le_bytes 4 m, none);
  decode = λ type body. elim body [ [] ↦ err message_not_found | b ∷ bs ↦ ok (le_value (b ∷ bs)) ];
  name = "pb";
}

abbrev with_codec : Registry ℕ
with_codec = record {
  codec_by_name = ("pb", codec) ∷ [];
  meta_by_name = [];
  meta_by_id = [];
  meta_by_type = [];
}

abbrev echo : MessageMeta ℕ
echo = record { type = 1; name = "gamedef.EchoACK"; id = 7; codec = some codec }

abbrev registry : Registry ℕ
registry = record {
  codec_by_name = ("pb", codec) ∷ [];
  meta_by_name = ("gamedef.EchoACK", echo) ∷ [];
  meta_by_id = (7, echo) ∷ [];
  meta_by_type = (1, echo) ∷ [];
}

registered : register_message_meta "pb" "gamedef.EchoACK" 1 7 with_codec ≡ some registry
unfolding register_message_meta fetch_codec lookup put_meta insert
registered = refl

with_codec-IsConsistent : IsConsistent with_codec
unfolding lookup
with_codec-IsConsistent = record {
  by_name = λ n m e. absurd cc;
  by_id = λ n m e. absurd cc;
  by_type = λ n m e. absurd cc;
}

register-IsConsistent_example : IsConsistent registry
register-IsConsistent_example =
    register-IsConsistent "pb" "gamedef.EchoACK" 1 7 with_codec registry with_codec-IsConsistent
      registered

register_twice_example :
    (register_message_meta "pb" "gamedef.EchoACK" 2 8 registry ≡ none)
    × ((n : String) → register_message_meta "pb" n 2 7 registry ≡ none)
    × ((n : String) → register_message_meta "pb" n 1 8 registry ≡ none)
register_twice_example =
    register_twice "pb" "pb" "gamedef.EchoACK" 1 7 2 8 with_codec registry registered

abbrev type_of : ℕ → ℕ
type_of m = 1

meta_of_echo : message_meta_by_type 1 registry ≡ some echo
unfolding message_meta_by_type lookup
meta_of_echo = refl

consistent : IsConsistent registry
consistent =
    register-IsConsistent "pb" "gamedef.EchoACK" 1 7 with_codec registry with_codec-IsConsistent
      registered

decode-encode_example :
    (encode_message registry type_of 300 ≡ some (le_bytes 4 300, 7, none))
    × (decode_message registry type_of 7 (le_bytes 4 300) ≡ ok 300)
decode-encode_example =
    decode-encode registry type_of 300 echo codec (le_bytes 4 300) consistent meta_of_echo refl refl
      refl

-- A handler that keeps the message that it got.
abbrev keep : Handler ℕ (List (Option ℕ))
keep ev w = some (ev, ev.msg ∷ w)

abbrev event : Event ℕ
event = record (new_event recv (some 1) 0) { msg_id = 7; body = le_bytes 4 300 }

call-chain_for_example :
    call (chain_for registry type_of 1 7 (keep ∷ [])) (clone event) []
    ≡ expected registry type_of 1 7 (keep ∷ []) event []
call-chain_for_example = call-chain_for registry type_of 1 7 (keep ∷ []) event []

abbrev registrations : List (Registration ℕ (List (Option ℕ)))
registrations = (1, 7, keep ∷ []) ∷ (2, 8, keep ∷ keep ∷ []) ∷ (3, 7, keep ∷ []) ∷ []

call_all-deliver_example :
    call_all (chains registry type_of registrations) event []
    ≡ deliver registry type_of registrations event []
call_all-deliver_example = call_all-deliver registry type_of registrations event []

abbrev two : HandlerChain ℕ (List (Option ℕ))
two = record { id = 9; list = keep ∷ keep ∷ [] }

call-Calls_example :
    (call two event [] ≡ some (record event { chainid = 9 }, none ∷ none ∷ []))
    ↔ Calls two.list
        (record event { chainid = 9 })
        []
        (record event { chainid = 9 }, none ∷ none ∷ [])
call-Calls_example = call-Calls two event [] (record event { chainid = 9 }, none ∷ none ∷ [])
