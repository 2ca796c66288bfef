-- ===== src/Toc/Homed.antt =====
-- Every record stands in the bucket of its key, and no key stands twice.
use libspill.Base.{
  ℕ, ◌+◌, ◌≤◌, ◌<◌, ◌≡◌, refl, inl, inr, none, List, [], ◌∷◌, arith, if◌then◌else◌, ◌==◌, ==_iff,
  length, get_or, set, length-set, Bool-cases, ap,
}
use libspill.Toc.{Rec, key_eq, bucket_of, find_chain, chain_at, push, drop_chain, write_chain}
use libspill.Toc.Chain.{key_eq_iff, bucket_of-lt, get_or-set}

-- how often a key stands in a chain
unfoldable pub count_chain : List ℕ → List Rec → ℕ
count_chain key [] = 0
count_chain key (r ∷ c) = (if key_eq r.key key then 1 else 0) + count_chain key c

abbrev pub Homed : List (List Rec) → Type 0
Homed tab =
    (key : List ℕ) (i : ℕ)
    → count_chain key (get_or tab i []) ≤ (if bucket_of (length tab) key == i then 1 else 0)

pub find-count_zero :
    (key : List ℕ) (c : List Rec) → count_chain key c ≡ 0 → find_chain key c ≡ none
unfolding count_chain find_chain
find-count_zero key [] h = refl
find-count_zero key (r ∷ c) h = ground (arith, find-count_zero key c)

pub count-find_none :
    (key : List ℕ) (c : List Rec) → find_chain key c ≡ none → count_chain key c ≡ 0
unfolding count_chain find_chain
count-find_none key [] h = refl
count-find_none key (r ∷ c) h = ground (arith, count-find_none key c)

count-write_chain :
    (r : Rec) (key : List ℕ) (c : List Rec) → count_chain key (write_chain r c) ≡ count_chain key c
unfolding count_chain write_chain
count-write_chain r key [] = refl
count-write_chain r key (q ∷ c) = ground (
  arith,
  count-write_chain r key c,
  key_eq_iff q.key r.key,
  key_eq_iff r.key key,
  key_eq_iff q.key key,
)

count-drop_chain-le :
    (k key : List ℕ) (c : List Rec) → count_chain key (drop_chain k c) ≤ count_chain key c
unfolding count_chain drop_chain
count-drop_chain-le k key [] = omega arith
count-drop_chain-le k key (q ∷ c) = ground (arith, count-drop_chain-le k key c)

pub count-drop_chain :
    (key : List ℕ) (c : List Rec) → count_chain key c ≤ 1 → count_chain key (drop_chain key c) ≡ 0
unfolding count_chain drop_chain
count-drop_chain key [] h = refl
count-drop_chain key (q ∷ c) h = ground (arith, count-drop_chain key c)

-- A change of one bucket keeps the table homed, if it adds no key to it.
set-Homed :
    (tab : List (List Rec)) (k : List ℕ) (c : List Rec)
    → 0 < length tab
    → Homed tab
    → ((key : List ℕ) → count_chain key c ≤ count_chain key (chain_at tab k))
    → Homed (set tab (bucket_of (length tab) k) c)
unfolding chain_at
set-Homed tab k c p h l key i =
    rw
      (length-set, get_or-set tab (bucket_of (length tab) k) i c [] (bucket_of-lt (length tab) k p))
      (elim (Bool-cases (bucket_of (length tab) k == i)) [
        | inl hit ↦
            let e = (==_iff _ i).0 hit in
            rw hit (ground (arith, l key, h key (bucket_of (length tab) k)))
        | inr miss ↦ rw miss (h key i)
      ])

pub write-Homed :
    (tab : List (List Rec)) (r : Rec)
    → 0 < length tab
    → Homed tab
    → Homed (set tab (bucket_of (length tab) r.key) (write_chain r (chain_at tab r.key)))
write-Homed tab r p h =
    set-Homed tab r.key _ p h (λ key. omega (arith, count-write_chain r key (chain_at tab r.key)))

pub drop-Homed :
    (tab : List (List Rec)) (k : List ℕ)
    → 0 < length tab
    → Homed tab
    → Homed (set tab (bucket_of (length tab) k) (drop_chain k (chain_at tab k)))
drop-Homed tab k p h = set-Homed tab k _ p h (λ key. count-drop_chain-le k key (chain_at tab k))

pub length-push : (r : Rec) (tab : List (List Rec)) → length (push r tab) ≡ length tab
unfolding push
length-push r tab = length-set tab _ _

-- A push adds its record's key to the bucket of that key.
pub count-push :
    (r : Rec) (tab : List (List Rec)) (key : List ℕ) (i : ℕ)
    → 0 < length tab
    → count_chain key (get_or (push r tab) i [])
      ≡ (if bucket_of (length tab) key == i then (if key_eq r.key key then 1 else 0) else 0)
        + count_chain key (get_or tab i [])
unfolding push chain_at
count-push r tab key i p =
    rw (get_or-set tab (bucket_of (length tab) r.key) i _ [] (bucket_of-lt (length tab) r.key p))
      (elim (Bool-cases (key_eq r.key key)) [
        | inl same ↦
            let s : bucket_of (length tab) r.key ≡ bucket_of (length tab) key =
              ap (bucket_of (length tab)) ((key_eq_iff r.key key).0 same) in
            unfold count_chain in ground (arith, s, same)
        | inr other ↦ unfold count_chain in ground (arith, other)
      ])

pub push-Homed :
    (tab : List (List Rec)) (r : Rec)
    → 0 < length tab
    → Homed tab
    → find_chain r.key (chain_at tab r.key) ≡ none
    → Homed (push r tab)
unfolding chain_at
push-Homed tab r p h new key i = rw (length-push r tab) (elim (Bool-cases (key_eq r.key key)) [
  | inl same ↦
      let e = (key_eq_iff r.key key).0 same in
      let z = rw e at (count-find_none r.key _ new) in
      elim (Bool-cases (bucket_of (length tab) key == i)) [
        | inl hit ↦
            let at = (==_iff _ i).0 hit in
            let z' : count_chain key (get_or tab i []) ≡ 0 = rw at at z in
            rw hit (ground (arith, count-push r tab key i p, hit, same, z'))
        | inr miss ↦ rw miss (ground (arith, count-push r tab key i p, miss, h key i))
      ]
  | inr other ↦ ground (arith, other, count-push r tab key i p, h key i)
])
