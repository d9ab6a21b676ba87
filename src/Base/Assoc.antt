-- ===== src/Base/Assoc.antt =====
-- A Go map as an association list. The order of the list stands for the order of iteration, which
-- Go leaves open.
use Prim.Native.Nat.{ℕ, ◌+◌}
use Prim.Native.String.{String}
use mathlib.Core.Path.{◌≡◌, refl}
use mathlib.Core.Logic.{◌↔◌, ◌≢◌, ◌⊎◌}
use mathlib.Core.Bool.{Bool, true, false}
use mathlib.Core.Option.{Option, none, some}
use mathlib.Core.List.{List, [], ◌∷◌}
use native.Mathlib.Omega.{arith}
use cellorigin.Base.Tests.{◌==◌ as nat_beq, ==_iff, if◌then◌else◌}
use cellorigin.Base.Lists.{length}
use text.Mathlib.Text.{◌==◌ as str_beq}
use text.Mathlib.TextEquality.{eq_iff}

pub record Eq {ℓ} (A : Type ℓ) : Type ℓ where
  pub beq : (x y : A) → Bool
  pub beq_iff : (x y : A) → (beq x y ≡ true) ↔ (x ≡ y)

infix 50 ◌=?◌
abbrev pub ◌=?◌ {ℓ} : {A : Type ℓ} ⦃e : Eq A⦄ → A → A → Bool
◌=?◌ ⦃e⦄ = e.beq

-- Keys of type uint32 and int64, and of type string.
instance abbrev pub nat_eq : Eq ℕ
nat_eq = record { beq_iff = ==_iff; beq = nat_beq }

instance abbrev pub string_eq : Eq String
string_eq = record { beq_iff = eq_iff; beq = str_beq }

module _ {ℓ κ} {K : Type ℓ} {V : Type κ} ⦃e : Eq K⦄ where
  unfoldable pub lookup : K → List (K × V) → Option V
  lookup k [] = none
  lookup k ((j, v) ∷ m) = if j =? k then some v else lookup k m

  -- `m[k] = v`
  unfoldable pub insert : K → V → List (K × V) → List (K × V)
  insert k v [] = (k, v) ∷ []
  insert k v ((j, w) ∷ m) = if j =? k then (k, v) ∷ m else (j, w) ∷ insert k v m

  -- `delete(m, k)`
  unfoldable pub delete : K → List (K × V) → List (K × V)
  delete k [] = []
  delete k ((j, w) ∷ m) = if j =? k then delete k m else (j, w) ∷ delete k m

  pub lookup-insert :
      (k j : K) (v : V) (m : List (K × V))
      → lookup j (insert k v m) ≡ (if k =? j then some v else lookup j m)
  unfolding lookup insert
  lookup-insert k j v [] = refl
  lookup-insert k j v ((i, w) ∷ m) =
      ground (arith, e.beq_iff k j, e.beq_iff i k, e.beq_iff i j, lookup-insert k j v m)

  pub lookup-delete :
      (k j : K) (m : List (K × V)) → lookup j (delete k m) ≡ (if k =? j then none else lookup j m)
  unfolding lookup delete
  lookup-delete k j [] = ground arith
  lookup-delete k j ((i, w) ∷ m) =
      ground (arith, e.beq_iff k j, e.beq_iff i k, e.beq_iff i j, lookup-delete k j m)

  pub lookup-insert_self : (k : K) (v : V) (m : List (K × V)) → lookup k (insert k v m) ≡ some v
  lookup-insert_self k v m = ground (arith, lookup-insert k k v m, e.beq_iff k k)

  -- What was there under another key stays, and nothing else is there.
  pub lookup-insert_keep :
      (k j : K) (v w : V) (m : List (K × V))
      → lookup k m ≡ none
      → lookup j m ≡ some w
      → lookup j (insert k v m) ≡ some w
  lookup-insert_keep k j v w m h l = ground (arith, lookup-insert k j v m, e.beq_iff k j)

  -- A key that is there is not the one that is not, and stays when that one is deleted.
  pub lookup-delete_keep :
      (k j : K) (v w : V) (m m' : List (K × V))
      → lookup k m ≡ none
      → lookup j m ≡ some w
      → lookup j m' ≡ some v
      → lookup j (delete k m') ≡ some v
  lookup-delete_keep k j v w m m' h l l' = ground (arith, lookup-delete k j m', e.beq_iff k j)

  pub lookup-insert_cases :
      (k j : K) (v w : V) (m : List (K × V))
      → lookup j (insert k v m) ≡ some w
      → ((k ≡ j) × (v ≡ w)) ⊎ (lookup j m ≡ some w)
  lookup-insert_cases k j v w m h = ground (arith, lookup-insert k j v m, e.beq_iff k j)

  -- A key that is not there makes the map longer by one.
  pub length-insert :
      (k : K) (v : V) (m : List (K × V)) → lookup k m ≡ none → length (insert k v m) ≡ length m + 1
  unfolding lookup insert
  length-insert k v [] h = ground arith
  length-insert k v ((j, w) ∷ m) h = ground (arith, length-insert k v m)

  -- A key that is there keeps the length.
  pub length-insert_old :
      (k : K) (v w : V) (m : List (K × V)) → lookup k m ≡ some w → length (insert k v m) ≡ length m
  unfolding lookup insert
  length-insert_old k v w [] h = cc
  length-insert_old k v w ((j, u) ∷ m) h = ground (arith, length-insert_old k v w m)

pub beq_self {ℓ} : {K : Type ℓ} ⦃e : Eq K⦄ (k : K) → (k =? k) ≡ true
beq_self ⦃e⦄ k = (e.beq_iff k k).1 refl

pub beq_ne {ℓ} : {K : Type ℓ} ⦃e : Eq K⦄ (k j : K) → k ≢ j → (k =? j) ≡ false
beq_ne ⦃e⦄ k j h = ground (arith, e.beq_iff k j)
