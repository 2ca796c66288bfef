-- ===== src/Toc/Count.antt =====
-- How many records the table holds, through every change of a bucket.
use libspill.Base.{
  ℕ, zero, suc, ◌+◌, ◌<◌, ◌≡◌, refl, some, List, [], ◌∷◌, arith, length, get_or, set, length-append,
  replicate,
}
use libspill.Toc.{
  Rec, bucket_of, find_chain, chain_at, push, move_chain, move_all, drop_chain, write_chain,
}
use libspill.Toc.Chain.{bucket_of-lt}
use libspill.Toc.Homed.{length-push}
use libspill.Toc.Grow.{flat, length-move_chain}

length-flat-set :
    (tab : List (List Rec)) (i : ℕ) (c : List Rec)
    → i < length tab
    → length (flat (set tab i c)) + length (get_or tab i []) ≡ length (flat tab) + length c
unfolding flat
length-flat-set [] i c h = absurd (omega arith)
length-flat-set (d ∷ tab) zero c h =
    omega (arith, length-append c (flat tab), length-append d (flat tab))
length-flat-set (d ∷ tab) (suc i) c h = omega (
  arith,
  length-append d (flat tab),
  length-append d (flat (set tab i c)),
  length-flat-set tab i c (omega arith),
)

length-write_chain : (r : Rec) (c : List Rec) → length (write_chain r c) ≡ length c
unfolding write_chain
length-write_chain r [] = refl
length-write_chain r (q ∷ c) = ground (arith, length-write_chain r c)

length-drop_chain :
    (key : List ℕ) (c : List Rec) (r : Rec)
    → find_chain key c ≡ some r
    → length (drop_chain key c) + 1 ≡ length c
unfolding drop_chain find_chain
length-drop_chain key [] r h = cc
length-drop_chain key (q ∷ c) r h = ground (arith, length-drop_chain key c r)

module _ (tab : List (List Rec)) (p : 0 < length tab) where
  pub length-flat-push : (r : Rec) → length (flat (push r tab)) ≡ length (flat tab) + 1
  unfolding push chain_at
  length-flat-push r = omega (
    arith,
    length-flat-set tab (bucket_of (length tab) r.key)
        (r ∷ get_or tab (bucket_of (length tab) r.key) []) (bucket_of-lt (length tab) r.key p),
  )

  pub length-flat-write :
      (r : Rec)
      → length (flat (set tab (bucket_of (length tab) r.key) (write_chain r (chain_at tab r.key))))
        ≡ length (flat tab)
  unfolding chain_at
  length-flat-write r =
      let c = get_or tab (bucket_of (length tab) r.key) [] in
      omega (
        arith,
        length-write_chain r c,
        length-flat-set tab (bucket_of (length tab) r.key) (write_chain r c)
            (bucket_of-lt (length tab) r.key p),
      )

  pub length-flat-drop :
      (key : List ℕ) (r : Rec)
      → find_chain key (chain_at tab key) ≡ some r
      → length (flat (set tab (bucket_of (length tab) key) (drop_chain key (chain_at tab key)))) + 1
        ≡ length (flat tab)
  unfolding chain_at
  length-flat-drop key r e =
      let c = get_or tab (bucket_of (length tab) key) [] in
      omega (
        arith,
        length-drop_chain key c r e,
        length-flat-set tab (bucket_of (length tab) key) (drop_chain key c)
            (bucket_of-lt (length tab) key p),
      )

length-flat-move_chain :
    (c : List Rec) (t : List (List Rec))
    → 0 < length t
    → length (flat (move_chain c t)) ≡ length c + length (flat t)
unfolding move_chain
length-flat-move_chain [] t p = omega arith
length-flat-move_chain (r ∷ c) t p = omega (
  arith,
  length-flat-push t p r,
  length-flat-move_chain c (push r t) (omega (arith, length-push r t)),
)

length-flat-move_all :
    (cs t : List (List Rec))
    → 0 < length t
    → length (flat (move_all cs t)) ≡ length (flat cs) + length (flat t)
unfolding move_all flat
length-flat-move_all [] t p = omega arith
length-flat-move_all (c ∷ cs) t p = omega (
  arith,
  length-append c (flat cs),
  length-flat-move_chain c t p,
  length-flat-move_all cs (move_chain c t) (omega (arith, length-move_chain c t)),
)

length-flat-replicate : (n : ℕ) → length (flat (replicate n [])) ≡ 0
unfolding flat
length-flat-replicate zero = refl
length-flat-replicate (suc n) = length-flat-replicate n

-- Rehashing into empty buckets keeps the number of records.
pub length-flat-rehash :
    (tab : List (List Rec)) (n : ℕ)
    → 0 < length (replicate {A = List Rec} n [])
    → length (flat (move_all tab (replicate n []))) ≡ length (flat tab)
length-flat-rehash tab n p =
    omega (arith, length-flat-move_all tab (replicate n []) p, length-flat-replicate n)
