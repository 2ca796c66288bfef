-- ===== src/Toc/Chain.antt =====
-- One chain, and one bucket of the table: keys, the index of a key, and lookups after a push, a
-- write or a removal.
use Prim.Native.Nat.{bit_and, bit_and-bitwise, digits, min}
use libspill.Base.{
  ℕ, zero, suc, ◌-◌, ◌/◌, ◌≤◌, ◌<◌, ◌≡◌, refl, ◌↔◌, inl, inr, true, false, none, some, List, [],
  ◌∷◌, arith, if◌then◌else◌, ◌==◌, ==_iff, length, get_or, set, length-set, Bool-cases, ap, ◌∙◌,
}
use libspill.Toc.{
  Rec, key_eq, bucket_of, hash_of, find_chain, chain_at, push, drop_chain, write_chain,
}

key_eq-eq : (a b : List ℕ) → key_eq a b ≡ true → a ≡ b
unfolding key_eq
key_eq-eq [] [] h = refl
key_eq-eq [] (b ∷ ys) h = cc
key_eq-eq (a ∷ xs) [] h = cc
key_eq-eq (a ∷ xs) (b ∷ ys) h =
    let e : a ≡ b = ground arith in
    let q : key_eq xs ys ≡ true = ground arith in cc (key_eq-eq xs ys q)

pub key_eq_refl : (a : List ℕ) → key_eq a a ≡ true
unfolding key_eq
key_eq_refl [] = refl
key_eq_refl (a ∷ xs) = ground (arith, key_eq_refl xs)

pub key_eq_iff : (a b : List ℕ) → (key_eq a b ≡ true) ↔ (a ≡ b)
key_eq_iff a b = (key_eq-eq a b, λ e. rw e (key_eq_refl b))

digits-le : (n a b : ℕ) → digits (λ y. zero) min n a b ≤ b
digits-le zero a b = omega arith
digits-le (suc n) zero b = omega arith
digits-le (suc n) (suc a) b = omega (arith, digits-le n (suc a / 2) (b / 2))

bit_and-le : (a b : ℕ) → bit_and a b ≤ b
bit_and-le a b = rw bit_and-bitwise (digits-le a a b)

pub bucket_of-lt : (n : ℕ) (key : List ℕ) → 0 < n → bucket_of n key < n
unfolding bucket_of
bucket_of-lt n key h = omega (arith, bit_and-le (hash_of key) (n - 1))

pub get_or-set :
    {A : Type 0} (xs : List A) (i j : ℕ) (v d : A)
    → i < length xs
    → get_or (set xs i v) j d ≡ (if i == j then v else get_or xs j d)
get_or-set [] i j v d h = absurd (omega arith)
get_or-set (x ∷ xs) zero zero v d h = ground arith
get_or-set (x ∷ xs) zero (suc j) v d h = ground arith
get_or-set (x ∷ xs) (suc i) zero v d h = ground arith
get_or-set (x ∷ xs) (suc i) (suc j) v d h = get_or-set xs i j v d (omega arith) ∙ ground arith

-- Rewriting the bucket of a key.
pub chain_at-set :
    (tab : List (List Rec)) (key j : List ℕ) (c : List Rec)
    → 0 < length tab
    → chain_at (set tab (bucket_of (length tab) key) c) j
      ≡ (if bucket_of (length tab) key == bucket_of (length tab) j then c else chain_at tab j)
unfolding chain_at
chain_at-set tab key j c p =
    rw length-set
      (get_or-set tab (bucket_of (length tab) key) _ c [] (bucket_of-lt (length tab) key p))

pub chain_at-congr :
    (tab : List (List Rec)) (a b : List ℕ)
    → bucket_of (length tab) a ≡ bucket_of (length tab) b
    → chain_at tab a ≡ chain_at tab b
unfolding chain_at
chain_at-congr tab a b e = rw e

-- A change of the bucket of `key` that a lookup of another key does not see.
pub find-set :
    (tab : List (List Rec)) (key j : List ℕ) (c : List Rec)
    → 0 < length tab
    → (bucket_of (length tab) key ≡ bucket_of (length tab) j
        → find_chain j c ≡ find_chain j (chain_at tab key))
    → find_chain j (chain_at (set tab (bucket_of (length tab) key) c) j)
      ≡ find_chain j (chain_at tab j)
find-set tab key j c p h =
    rw (chain_at-set tab key j c p)
      (elim (Bool-cases (bucket_of (length tab) key == bucket_of (length tab) j)) [
        | inl hit ↦
            let e = (==_iff _ _).0 hit in
            rw hit (h e ∙ ap (find_chain j) (chain_at-congr tab key j e))
        | inr miss ↦ rw miss refl
      ])

pub find-set_self :
    (tab : List (List Rec)) (key : List ℕ) (c : List Rec)
    → 0 < length tab
    → chain_at (set tab (bucket_of (length tab) key) c) key ≡ c
find-set_self tab key c p =
    rw (chain_at-set tab key key c p, (==_iff (bucket_of (length tab) key) _).1 refl)

-- Lookups in one chain after a write and after a removal.
pub find-write_chain :
    (r : Rec) (j : List ℕ) (c : List Rec)
    → find_chain j (write_chain r c) ≡ (
        if key_eq r.key j
        then elim (find_chain r.key c) [ none ↦ none | some _ ↦ some r ]
        else find_chain j c)
unfolding find_chain write_chain
find-write_chain r j [] = ground arith
find-write_chain r j (q ∷ c) =
    ground (
      arith,
      find-write_chain r j c,
      key_eq_iff q.key r.key,
      key_eq_iff r.key j,
      key_eq_iff q.key j,
    )

pub find-drop_chain :
    (key j : List ℕ) (c : List Rec)
    → key_eq key j ≡ false
    → find_chain j (drop_chain key c) ≡ find_chain j c
unfolding find_chain drop_chain
find-drop_chain key j [] n = refl
find-drop_chain key j (q ∷ c) n =
    ground
      (arith, find-drop_chain key j c n, key_eq_iff q.key key, key_eq_iff q.key j, key_eq_iff key j)

module _ (tab : List (List Rec)) (j : List ℕ) (p : 0 < length tab) where
  -- After a push the new record is found under its key, and every other key is found as before.
  pub find-push :
      (r : Rec)
      → find_chain j (chain_at (push r tab) j)
        ≡ (if key_eq r.key j then some r else find_chain j (chain_at tab j))
  unfolding push find_chain
  find-push r = elim (Bool-cases (key_eq r.key j)) [
    | inl same ↦
        let e = (key_eq_iff r.key j).0 same in
        let s : bucket_of (length tab) r.key ≡ bucket_of (length tab) j =
          ap (bucket_of (length tab)) e in
        rw (chain_at-set tab r.key j (r ∷ chain_at tab r.key) p, (==_iff _ _).1 s, same)
          (ground (arith, same))
    | inr other ↦ rw other (find-set tab r.key j (r ∷ chain_at tab r.key) p (λ e. rw other refl))
  ]
