-- ===== src/Cellnet/Session/Ids.antt =====
-- The search for a session id: what the loop of `Add` finds, and that it finds a free one.
use cellorigin.Base.{
  ℕ, zero, suc, ◌+◌, ◌%◌, ◌^◌, ◌≤◌, ◌<◌, ◌≡◌, ◌≢◌, refl, sym, ap, ◌∙◌, arith, List, [], ◌∷◌,
  Option-cases, none, some, length, inl, inr, not-==_of_ne,
}
use cellorigin.Base.Assoc.{lookup, delete, lookup-delete, nat_eq}
use cellorigin.Cellnet.Session.{find_id, next_id}

-- The id that is `k` further than `acc`.
abbrev pub id_after : ℕ → ℕ → ℕ
id_after acc k = (acc + k) % 2 ^ 64

pub next_id-id_after : (acc k : ℕ) → id_after (next_id acc) k ≡ id_after acc (suc k)
unfolding next_id
next_id-id_after acc k = omega arith

-- The first `n` ids after `acc` are all in the map.
abbrev pub Taken : ℕ → ℕ → List (ℕ × ℕ) → Type 0
Taken acc n m = (k : ℕ) → 1 ≤ k → k ≤ n → (s : ℕ) × (lookup (id_after acc k) m ≡ some s)

-- The id after `acc + j` is free and those before it are taken; or all `tries` ids are taken.
pub data Found (tries acc : ℕ) (m : List (ℕ × ℕ)) : ℕ × ℕ → Type 0 where
  free :
      (j : ℕ)
      → j < tries
      → Taken acc j m
      → lookup (id_after acc (suc j)) m ≡ none
      → (p : ℕ × ℕ) → p.0 ≡ id_after acc (suc j)
      → p.1 + j ≡ tries
      → Found tries acc m p
  override :
      Taken acc tries m → (p : ℕ × ℕ) → p.0 ≡ id_after acc tries → p.1 ≡ 0 → Found tries acc m p

module _ (acc tries : ℕ) (m : List (ℕ × ℕ)) where
  find_id-free :
      lookup (next_id acc) m ≡ none → find_id (suc tries) acc m ≡ (next_id acc, suc tries)
  unfolding find_id
  find_id-free e = rw (e, find_id) refl

  find_id-taken :
      (s : ℕ)
      → lookup (next_id acc) m ≡ some s
      → find_id (suc tries) acc m ≡ find_id tries (next_id acc) m
  unfolding find_id
  find_id-taken s e = rw (e, find_id) refl

Taken-next :
    (acc n s : ℕ) (m : List (ℕ × ℕ))
    → lookup (next_id acc) m ≡ some s
    → Taken (next_id acc) n m
    → Taken acc (suc n) m
Taken-next acc n s m e t zero a b = absurd (omega arith)
Taken-next acc n s m e t (suc zero) a b = (s, unfold next_id in e)
Taken-next acc n s m e t (suc (suc k)) a b =
    let (u, f) = t (suc k) (omega arith) (omega arith) in
    (u, ap (λ i. lookup i m) (sym (next_id-id_after acc (suc k))) ∙ f)

Found-next :
    (acc n s : ℕ) (m : List (ℕ × ℕ)) (p : ℕ × ℕ)
    → lookup (next_id acc) m ≡ some s
    → Found n (next_id acc) m p
    → Found (suc n) acc m p
Found-next acc n s m p e (free j l t f _ a b) =
    free (suc j) (omega arith) (Taken-next acc j s m e t)
      (ap (λ i. lookup i m) (sym (next_id-id_after acc (suc j))) ∙ f) p
      (a ∙ next_id-id_after acc (suc j)) (omega arith)
Found-next acc n s m p e (override t _ a b) =
    override (Taken-next acc n s m e t) p (a ∙ next_id-id_after acc n) b

next_id-lt : (acc : ℕ) → next_id acc < 2 ^ 64
unfolding next_id
next_id-lt acc = omega arith

-- From an int64 counter, the loop ends with the first free id after the counter if there is one
-- within the tries; else all ids within the tries are taken, it ends with the last and no try is left.
pub find_id-Found :
    (tries acc : ℕ) (m : List (ℕ × ℕ)) → acc < 2 ^ 64 → Found tries acc m (find_id tries acc m)
find_id-Found zero acc m l =
    unfold find_id in override (λ k a b. absurd (omega arith)) (acc, 0) (omega arith) refl
find_id-Found (suc n) acc m l = elim (Option-cases (lookup (next_id acc) m)) [
  | inl e ↦ rw (find_id-free acc n m e) (
      free 0 (omega arith) (λ k a b. absurd (omega arith)) (unfold next_id in e)
        (next_id acc, suc n) (unfold next_id in refl) (omega arith))
  | inr (s, e) ↦
      rw (find_id-taken acc n m s e)
        (Found-next acc n s m _ e (find_id-Found n (next_id acc) m (next_id-lt acc)))
]

length-delete_le : (k : ℕ) (m : List (ℕ × ℕ)) → length (delete k m) ≤ length m
unfolding delete
length-delete_le k [] = omega arith
length-delete_le k ((j, w) ∷ m) = ground (arith, length-delete_le k m)

length-delete_lt :
    (k s : ℕ) (m : List (ℕ × ℕ)) → lookup k m ≡ some s → suc (length (delete k m)) ≤ length m
unfolding delete lookup
length-delete_lt k s [] e = cc
length-delete_lt k s ((j, w) ∷ m) e = ground (arith, length-delete_le k m, length-delete_lt k s m)

id_after-distinct : (acc k n : ℕ) → k < n → n ≤ 2 ^ 64 → 1 ≤ k → id_after acc n ≢ id_after acc k
id_after-distinct acc k n a b c e = omega arith

-- As many ids as are taken, so many sessions are in the map.
pub Taken-length : (n acc : ℕ) (m : List (ℕ × ℕ)) → n ≤ 2 ^ 64 → Taken acc n m → n ≤ length m
Taken-length zero acc m l t = omega arith
Taken-length (suc n) acc m l t =
    let (s, e) = t (suc n) (omega arith) (omega arith) in
    let rest = Taken-length n acc (delete (id_after acc (suc n)) m) (omega arith) (λ k a b. (
      (t k a (omega arith)).0,
      lookup-delete (id_after acc (suc n)) (id_after acc k) m
          ∙ (rw (not-==_of_ne _ _ (id_after-distinct acc k (suc n) (omega arith) l a))
              (t k a (omega arith)).1),
    )) in
    omega (arith, rest, length-delete_lt (id_after acc (suc n)) s m e)
