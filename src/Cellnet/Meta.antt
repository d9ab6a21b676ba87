-- ===== src/Cellnet/Meta.antt =====
-- cellnet/codec.go and cellnet/msgmeta.go: the registries of codecs and of messages. A type is
-- named by a number, and so is the type of an object (`reflect.TypeOf`, pointers taken off).
pub mod Consistent
use cellorigin.Base.{ℕ, List, [], Option, none, some, Outcome, panic, ok, err}
use cellorigin.Base.Assoc.{lookup, insert, string_eq, nat_eq}
use Prim.Native.String.{String}

-- An error of a codec, and those of EncodeMessage and DecodeMessage.
pub data Error : Type 0 where
  message_not_found codec_not_found : Error
  codec_failed : ℕ → Error

-- The interface `Codec`. `encode` gives the bytes and the error, or panics (`none`); `decode` fills
-- a new object of the type that it is given.
pub record Codec (Obj : Type 0) : Type 0 where
  pub encode : Obj → Option (List ℕ × Option Error)
  pub decode : ℕ → List ℕ → Outcome Error Obj
  pub name : String

pub record MessageMeta (Obj : Type 0) : Type 0 where
  pub type : ℕ
  pub name : String
  pub id : ℕ
  pub codec : Option (Codec Obj)

-- The package's variables.
pub record Registry (Obj : Type 0) : Type 0 where
  pub codec_by_name : List (String × Codec Obj)
  pub meta_by_name : List (String × MessageMeta Obj)
  pub meta_by_id : List (ℕ × MessageMeta Obj)
  pub meta_by_type : List (ℕ × MessageMeta Obj)

module _ {Obj : Type 0} where
  pub empty : Registry Obj
  empty = record { codec_by_name = []; meta_by_name = []; meta_by_id = []; meta_by_type = [] }

  -- A panic is `none`.
  pub register_codec : String → Codec Obj → Registry Obj → Option (Registry Obj)
  register_codec name c g = elim (lookup name g.codec_by_name) [
    | some _ ↦ none
    | none ↦ some (record g { codec_by_name = insert name c g.codec_by_name })
  ]

  unfoldable pub fetch_codec : String → Registry Obj → Option (Codec Obj)
  fetch_codec name g = lookup name g.codec_by_name

  unfoldable pub message_meta_by_name : String → Registry Obj → Option (MessageMeta Obj)
  message_meta_by_name name g = lookup name g.meta_by_name

  unfoldable pub message_meta_by_id : ℕ → Registry Obj → Option (MessageMeta Obj)
  message_meta_by_id id g = lookup id g.meta_by_id

  unfoldable pub message_meta_by_type : ℕ → Registry Obj → Option (MessageMeta Obj)
  message_meta_by_type type g = lookup type g.meta_by_type

  pub message_name_by_id : ℕ → Registry Obj → String
  message_name_by_id id g = elim (message_meta_by_id id g) [ some meta ↦ meta.name | none ↦ "" ]

  -- The three writes at the end of `RegisterMessageMeta`.
  unfoldable pub put_meta : MessageMeta Obj → Registry Obj → Registry Obj
  put_meta meta g = record g {
    meta_by_name = insert meta.name meta g.meta_by_name;
    meta_by_id = insert meta.id meta g.meta_by_id;
    meta_by_type = insert meta.type meta g.meta_by_type;
  }

  unfoldable unless_found : {A : Type 0} → Option A → Option (Registry Obj) → Option (Registry Obj)
  unless_found (some _) next = none
  unless_found none next = next

  unfoldable pub register_message_meta :
      String → String → ℕ → ℕ → Registry Obj → Option (Registry Obj)
  unfolding unless_found
  register_message_meta codec_name name type id g =
      let meta : MessageMeta Obj = record {
        type = type;
        name = name;
        id = id;
        codec = fetch_codec codec_name g;
      } in
      elim (fetch_codec codec_name g) [
        | none ↦ none
        | some _ ↦ unless_found (lookup name g.meta_by_name) (
            unless_found (lookup id g.meta_by_id)
              (unless_found (lookup type g.meta_by_type) (some (put_meta meta g))))
      ]
