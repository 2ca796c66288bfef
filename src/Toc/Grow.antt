-- ===== src/Toc/Grow.antt =====
-- `toc_grow` of src/toc.c: the larger table finds the same records.
use libspill.Base.{
  ℕ, zero, suc, ◌+◌, ◌≤◌, ◌<◌, ◌≡◌, refl, inl, inr, Option, none, some, List, [], ◌∷◌, ◌++◌, arith,
  if◌then◌else◌, ◌==◌, length, get_or, replicate, length-replicate, Bool-cases, Option-cases, ap,
  ◌∙◌,
}
use libspill.Toc.{Rec, key_eq, bucket_of, find_chain, chain_at, push, move_chain, move_all}
use libspill.Toc.Chain.{find-push}
use libspill.Toc.Homed.{count_chain, Homed, find-count_zero, length-push, count-push}

pub length-move_chain : (c : List Rec) (t : List (List Rec)) → length (move_chain c t) ≡ length t
unfolding move_chain
length-move_chain [] t = refl
length-move_chain (r ∷ c) t = length-move_chain c (push r t) ∙ length-push r t

pub length-move_all : (cs t : List (List Rec)) → length (move_all cs t) ≡ length t
unfolding move_all
length-move_all [] t = refl
length-move_all (c ∷ cs) t = length-move_all cs (move_chain c t) ∙ length-move_chain c t

-- A chain with the key at most once, moved into `t`.
unfoldable pub or_found : Option Rec → Option Rec → Option Rec
or_found none d = d
or_found (some r) d = some r

find-move_chain :
    (key : List ℕ) (c : List Rec) (t : List (List Rec))
    → 0 < length t
    → count_chain key c ≤ 1
    → find_chain key (chain_at (move_chain c t) key)
      ≡ or_found (find_chain key c) (find_chain key (chain_at t key))
unfolding move_chain find_chain or_found
find-move_chain key [] t p h = refl
find-move_chain key (r ∷ c) t p h =
    let rest =
      find-move_chain key c (push r t) (rw (length-push r t) p)
        (unfold count_chain in omega (arith, h)) in
    let top = find-push t key p r in
    elim (Bool-cases (key_eq r.key key)) [
      | inl same ↦
          let gone = find-count_zero key c (unfold count_chain in ground (arith, h, same)) in
          rw (rest, top, same, gone)
      | inr other ↦ rw (rest, top, other)
    ]

count-move_chain :
    (c : List Rec) (t : List (List Rec)) (key : List ℕ) (i : ℕ)
    → 0 < length t
    → count_chain key (get_or (move_chain c t) i [])
      ≡ (if bucket_of (length t) key == i then count_chain key c else 0)
        + count_chain key (get_or t i [])
unfolding move_chain count_chain
count-move_chain [] t key i p = ground arith
count-move_chain (r ∷ c) t key i p =
    let rest = count-move_chain c (push r t) key i (rw (length-push r t) p) in
    let rest' = rw (length-push r t) at rest in ground (arith, rest', count-push r t key i p)

-- The same for all the chains of a table.
sum_count : List ℕ → List (List Rec) → ℕ
sum_count key [] = 0
sum_count key (c ∷ cs) = count_chain key c + sum_count key cs

find_all : List ℕ → List (List Rec) → Option Rec
find_all key [] = none
find_all key (c ∷ cs) = or_found (find_chain key c) (find_all key cs)

find_all-zero :
    (key : List ℕ) (cs : List (List Rec)) → sum_count key cs ≡ 0 → find_all key cs ≡ none
unfolding sum_count find_all or_found
find_all-zero key [] h = refl
find_all-zero key (c ∷ cs) h =
    rw (find-count_zero key c (omega arith)) (find_all-zero key cs (omega arith))

count-found :
    (key : List ℕ) (c : List Rec) (r : Rec) → find_chain key c ≡ some r → 0 < count_chain key c
unfolding find_chain count_chain
count-found key [] r h = cc
count-found key (q ∷ c) r h = ground (arith, count-found key c r)

or_found_assoc : (a b c : Option Rec) → or_found a (or_found b c) ≡ or_found (or_found a b) c
unfolding or_found
or_found_assoc none b c = refl
or_found_assoc (some r) b c = refl

find-move_all :
    (key : List ℕ) (cs t : List (List Rec))
    → 0 < length t
    → sum_count key cs ≤ 1
    → find_chain key (chain_at (move_all cs t) key)
      ≡ or_found (find_all key cs) (find_chain key (chain_at t key))
unfolding move_all find_all sum_count
find-move_all key [] t p h = unfold or_found in refl
find-move_all key (c ∷ cs) t p h =
    let rest = find-move_all key cs (move_chain c t) (rw (length-move_chain c t) p) (omega arith) in
    let one = find-move_chain key c t p (omega arith) in
    elim (Option-cases (find_chain key c)) [
      | inl e ↦ rest ∙ rw (one, e) (unfold or_found in refl)
      | inr (r, e) ↦
          let z = find_all-zero key cs (omega (arith, count-found key c r e)) in
          rest ∙ rw (one, e, z) (unfold or_found in refl)
    ]

count-move_all :
    (cs t : List (List Rec)) (key : List ℕ) (i : ℕ)
    → 0 < length t
    → count_chain key (get_or (move_all cs t) i [])
      ≡ (if bucket_of (length t) key == i then sum_count key cs else 0)
        + count_chain key (get_or t i [])
unfolding move_all sum_count
count-move_all [] t key i p = ground arith
count-move_all (c ∷ cs) t key i p =
    let rest = count-move_all cs (move_chain c t) key i (rw (length-move_chain c t) p) in
    let rest' = rw (length-move_chain c t) at rest in
    ground (arith, rest', count-move_chain c t key i p)

-- In a homed table a key stands in its bucket or nowhere.
module _ (key : List ℕ) (b : ℕ) where
  AtMostHome : ℕ → List (List Rec) → Type 0
  AtMostHome i cs = (j : ℕ) → count_chain key (get_or cs j []) ≤ (if b == i + j then 1 else 0)

  AtMostHome-tail :
      (i : ℕ) (c : List Rec) (cs : List (List Rec)) → AtMostHome i (c ∷ cs) → AtMostHome (suc i) cs
  unfolding AtMostHome
  AtMostHome-tail i c cs h j = let e : i + suc j ≡ suc i + j = omega arith in rw e at (h (suc j))

  sum_count-past : (i : ℕ) (cs : List (List Rec)) → b < i → AtMostHome i cs → sum_count key cs ≡ 0
  unfolding sum_count AtMostHome
  sum_count-past i [] l h = refl
  sum_count-past i (c ∷ cs) l h =
      ground (arith, h 0, sum_count-past (suc i) cs (omega arith) (AtMostHome-tail i c cs h))

  sum_count-le : (i : ℕ) (cs : List (List Rec)) → AtMostHome i cs → sum_count key cs ≤ 1
  unfolding sum_count AtMostHome
  sum_count-le i [] h = omega arith
  sum_count-le i (c ∷ cs) h = elim (Bool-cases (b == i)) [
    | inl hit ↦
        ground (arith, h 0, sum_count-past (suc i) cs (ground arith) (AtMostHome-tail i c cs h))
    | inr miss ↦ ground (arith, h 0, sum_count-le (suc i) cs (AtMostHome-tail i c cs h))
  ]

  find_all-home :
      (i k : ℕ) (cs : List (List Rec))
      → b ≡ i + k
      → AtMostHome i cs
      → find_all key cs ≡ find_chain key (get_or cs k [])
  unfolding find_all AtMostHome or_found
  find_all-home i k [] e h = unfold find_chain in refl
  find_all-home i zero (c ∷ cs) e h =
      let z =
        find_all-zero key cs (sum_count-past (suc i) cs (omega arith) (AtMostHome-tail i c cs h)) in
      rw z (or_found-none (find_chain key c))
    where
      or_found-none : (o : Option Rec) → or_found o none ≡ o
      or_found-none none = refl
      or_found-none (some r) = refl
  find_all-home i (suc k) (c ∷ cs) e h =
      let z = find-count_zero key c (ground (arith, h 0)) in
      rw z (find_all-home (suc i) k cs (omega arith) (AtMostHome-tail i c cs h))

get_or-replicate : {A : Type 0} (n i : ℕ) (a : A) → get_or (replicate n a) i a ≡ a
get_or-replicate zero i a = refl
get_or-replicate (suc n) zero a = refl
get_or-replicate (suc n) (suc i) a = get_or-replicate n i a

module _ (tab : List (List Rec)) (n : ℕ) (pos : 0 < n) (h : Homed tab) where
  width : length (replicate {A = List Rec} n []) ≡ n
  width = length-replicate n []

  from_zero : (key : List ℕ) → AtMostHome key (bucket_of (length tab) key) 0 tab
  unfolding AtMostHome
  from_zero key j = let e : 0 + j ≡ j = omega arith in rw e (h key j)

  -- Every key is found in the rehashed table exactly as before.
  pub find-rehash :
      (key : List ℕ)
      → find_chain key (chain_at (move_all tab (replicate n [])) key)
        ≡ find_chain key (chain_at tab key)
  unfolding chain_at
  find-rehash key =
      let moved =
        find-move_all key tab (replicate n []) (rw width pos)
          (sum_count-le key _ 0 tab (from_zero key)) in
      let home =
        find_all-home key (bucket_of (length tab) key) 0 (bucket_of (length tab) key) tab
          (omega arith) (from_zero key) in
      moved ∙ rw home (empty (find_chain key (chain_at tab key)))
    where
      empty : (o : Option Rec) → or_found o (find_chain key (chain_at (replicate n []) key)) ≡ o
      empty none = unfold or_found find_chain in rw get_or-replicate
      empty (some r) = unfold or_found in refl

  pub rehash-Homed : Homed (move_all tab (replicate n []))
  rehash-Homed key i =
      let c = count-move_all tab (replicate n []) key i (rw width pos) in
      let e = length-move_all tab (replicate n []) in
      let l = sum_count-le key _ 0 tab (from_zero key) in
      let z = get_or-replicate {A = List Rec} n i [] in
      rw e (unfold count_chain in ground (arith, c, l, ap (count_chain key) z))

-- All the records, in the order of the two nested loops over the table.
unfoldable pub flat : List (List Rec) → List Rec
flat [] = []
flat (c ∷ cs) = c ++ flat cs

find-append :
    (key : List ℕ) (a b : List Rec)
    → find_chain key (a ++ b) ≡ or_found (find_chain key a) (find_chain key b)
unfolding find_chain or_found
find-append key [] b = refl
find-append key (r ∷ a) b = ground (arith, find-append key a b)

count-append :
    (key : List ℕ) (a b : List Rec)
    → count_chain key (a ++ b) ≡ count_chain key a + count_chain key b
unfolding count_chain
count-append key [] b = omega arith
count-append key (r ∷ a) b = omega (arith, count-append key a b)

find-flat_all : (key : List ℕ) (cs : List (List Rec)) → find_chain key (flat cs) ≡ find_all key cs
unfolding flat find_all
find-flat_all key [] = unfold find_chain in refl
find-flat_all key (c ∷ cs) =
    find-append key c (flat cs) ∙ ap (or_found (find_chain key c)) (find-flat_all key cs)

count-flat_sum :
    (key : List ℕ) (cs : List (List Rec)) → count_chain key (flat cs) ≡ sum_count key cs
unfolding flat sum_count
count-flat_sum key [] = unfold count_chain in refl
count-flat_sum key (c ∷ cs) = omega (arith, count-append key c (flat cs), count-flat_sum key cs)

-- The loops over the table meet every key once, at the record that a lookup finds.
pub find-flat :
    (tab : List (List Rec)) (key : List ℕ)
    → Homed tab
    → (find_chain key (flat tab) ≡ find_chain key (chain_at tab key))
      × (count_chain key (flat tab) ≤ 1)
unfolding chain_at
find-flat tab key h = (
  find-flat_all key tab
      ∙ find_all-home key (bucket_of (length tab) key) 0 (bucket_of (length tab) key) tab
          (omega arith) (from_zero tab 1 (omega arith) h key),
  omega (
    arith,
    count-flat_sum key tab,
    sum_count-le key (bucket_of (length tab) key) 0 tab (from_zero tab 1 (omega arith) h key),
  ),
)
