-- ===== src/Cellnet/Meta/Consistent.antt =====
-- The three tables of messages agree, whatever is registered.
use cellorigin.Base.{ℕ, ◌≡◌, ◌≢◌, refl, arith, none, some, inl, inr}
use cellorigin.Base.Assoc.{
  lookup, lookup-insert_self, lookup-insert_keep, lookup-insert_cases, string_eq, nat_eq,
}
use cellorigin.Cellnet.Meta.{
  Registry, MessageMeta, empty, register_message_meta, put_meta, fetch_codec, message_meta_by_name,
  message_meta_by_id, message_meta_by_type,
}
use Prim.Native.String.{String}

module _ {Obj : Type 0} where
  -- Each table gives a meta under its own name, id or type, the other two tables give the same one
  -- under theirs, and the meta has a codec.
  pub record IsConsistent (g : Registry Obj) : Type 0 where
    pub by_name :
        (n : String) (m : MessageMeta Obj)
        → lookup n g.meta_by_name ≡ some m
        → (m.name ≡ n)
          × (lookup m.id g.meta_by_id ≡ some m)
          × (lookup m.type g.meta_by_type ≡ some m)
          × (m.codec ≢ none)
    pub by_id :
        (i : ℕ) (m : MessageMeta Obj)
        → lookup i g.meta_by_id ≡ some m
        → (m.id ≡ i) × (lookup m.name g.meta_by_name ≡ some m)
    pub by_type :
        (t : ℕ) (m : MessageMeta Obj)
        → lookup t g.meta_by_type ≡ some m
        → (m.type ≡ t) × (lookup m.name g.meta_by_name ≡ some m)

  pub empty-IsConsistent : IsConsistent (empty {Obj = Obj})
  unfolding empty lookup
  empty-IsConsistent = record { by_name = λ n m h. cc; by_id = λ i m h. cc; by_type = λ t m h. cc }

  -- A registration that goes through found all three keys free and the codec there.
  register_cases :
      (codec_name name : String) (type id : ℕ) (g g' : Registry Obj)
      → register_message_meta codec_name name type id g ≡ some g'
      → (lookup name g.meta_by_name ≡ none)
        × (lookup id g.meta_by_id ≡ none)
        × (lookup type g.meta_by_type ≡ none)
        × (fetch_codec codec_name g ≢ none)
        × (g'
            ≡ put_meta
                (record { type = type; name = name; id = id; codec = fetch_codec codec_name g })
                g)
  unfolding register_message_meta
  register_cases codec_name name type id g g' h = ground arith

  module _ (m : MessageMeta Obj) (g : Registry Obj) (v : IsConsistent g) (has : m.codec ≢ none)
      (free_name : lookup m.name g.meta_by_name ≡ none) (free_id : lookup m.id g.meta_by_id ≡ none)
      (free_type : lookup m.type g.meta_by_type ≡ none) where
    put_by_name :
        (n : String) (x : MessageMeta Obj)
        → lookup n (put_meta m g).meta_by_name ≡ some x
        → (x.name ≡ n)
          × (lookup x.id (put_meta m g).meta_by_id ≡ some x)
          × (lookup x.type (put_meta m g).meta_by_type ≡ some x)
          × (x.codec ≢ none)
    unfolding put_meta
    put_by_name n x h = elim (lookup-insert_cases m.name n m x g.meta_by_name h) [
      | inl (en, ex) ↦ rw (← ex) (
        en,
        lookup-insert_self m.id m g.meta_by_id,
        lookup-insert_self m.type m g.meta_by_type,
        has,
      )
      | inr old ↦
          let (en, ei, et, ec) = v.by_name n x old in
          (
            en,
            lookup-insert_keep m.id x.id m x g.meta_by_id free_id ei,
            lookup-insert_keep m.type x.type m x g.meta_by_type free_type et,
            ec,
          )
    ]

    put_by_id :
        (i : ℕ) (x : MessageMeta Obj)
        → lookup i (put_meta m g).meta_by_id ≡ some x
        → (x.id ≡ i) × (lookup x.name (put_meta m g).meta_by_name ≡ some x)
    unfolding put_meta
    put_by_id i x h = elim (lookup-insert_cases m.id i m x g.meta_by_id h) [
      | inl (ei, ex) ↦ rw (← ex) (ei, lookup-insert_self m.name m g.meta_by_name)
      | inr old ↦
          let (ei, en) = v.by_id i x old in
          (ei, lookup-insert_keep m.name x.name m x g.meta_by_name free_name en)
    ]

    put_by_type :
        (t : ℕ) (x : MessageMeta Obj)
        → lookup t (put_meta m g).meta_by_type ≡ some x
        → (x.type ≡ t) × (lookup x.name (put_meta m g).meta_by_name ≡ some x)
    unfolding put_meta
    put_by_type t x h = elim (lookup-insert_cases m.type t m x g.meta_by_type h) [
      | inl (et, ex) ↦ rw (← ex) (et, lookup-insert_self m.name m g.meta_by_name)
      | inr old ↦
          let (et, en) = v.by_type t x old in
          (et, lookup-insert_keep m.name x.name m x g.meta_by_name free_name en)
    ]

    put_meta-IsConsistent : IsConsistent (put_meta m g)
    put_meta-IsConsistent = record {
      by_name = put_by_name;
      by_id = put_by_id;
      by_type = put_by_type;
    }

  -- A registration that does not panic keeps the three tables consistent.
  pub register-IsConsistent :
      (codec_name name : String) (type id : ℕ) (g g' : Registry Obj)
      → IsConsistent g
      → register_message_meta codec_name name type id g ≡ some g'
      → IsConsistent g'
  register-IsConsistent codec_name name type id g g' v h =
      let (fn, fi, ft, has, e) = register_cases codec_name name type id g g' h in
      rw e (
        put_meta-IsConsistent
          (record { type = type; name = name; id = id; codec = fetch_codec codec_name g }) g v has
          fn fi ft)

  pub lookup-register :
      (codec_name name : String) (type id : ℕ) (g g' : Registry Obj)
      → register_message_meta codec_name name type id g ≡ some g'
      → (m : MessageMeta Obj) × (message_meta_by_name name g' ≡ some m)
        × (message_meta_by_id id g' ≡ some m)
        × (message_meta_by_type type g' ≡ some m)
        × (m.codec ≡ fetch_codec codec_name g)
        × (m.codec ≢ none)
  unfolding message_meta_by_name message_meta_by_id message_meta_by_type put_meta
  lookup-register codec_name name type id g g' h =
      let (fn, fi, ft, has, e) = register_cases codec_name name type id g g' h in
      let m : MessageMeta Obj = record {
        type = type;
        name = name;
        id = id;
        codec = fetch_codec codec_name g;
      } in
      (
        m,
        rw e (lookup-insert_self name m g.meta_by_name),
        rw e (lookup-insert_self id m g.meta_by_id),
        rw e (lookup-insert_self type m g.meta_by_type),
        refl,
        has,
      )

  -- A second registration under the same name, id or type panics.
  pub register_twice :
      (codec_name other name : String) (type id type' id' : ℕ) (g g' : Registry Obj)
      → register_message_meta codec_name name type id g ≡ some g'
      → (register_message_meta other name type' id' g' ≡ none)
        × ((n : String) → register_message_meta other n type' id g' ≡ none)
        × ((n : String) → register_message_meta other n type id' g' ≡ none)
  unfolding message_meta_by_name message_meta_by_id message_meta_by_type register_message_meta
  register_twice codec_name other name type id type' id' g g' h =
      let (m, en, ei, et, _, _) = lookup-register codec_name name type id g g' h in
      (ground arith, λ n. ground arith, λ n. ground arith)
