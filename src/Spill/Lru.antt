-- ===== src/Spill/Lru.antt =====
-- src/store.c: the LRU list under `ls_lru_drop` and `ls_lru_touch`.
use libspill.Base.{
  ℕ, ◌+◌, ◌≡◌, refl, inl, inr, Bool, true, false, ◌&&◌, ◌||◌, not, List, [], ◌∷◌, arith, Bool-cases,
  length, ap, ◌∙◌, sym,
}
use libspill.Toc.{key_eq}
use libspill.Toc.Chain.{key_eq_iff}
use libspill.Spill.{lru_drop, lru_touch}

unfoldable pub has_key : List ℕ → List (List ℕ) → Bool
has_key key [] = false
has_key key (k ∷ ks) = key_eq k key || has_key key ks

-- no record is on the list twice
unfoldable pub are_distinct : List (List ℕ) → Bool
are_distinct [] = true
are_distinct (k ∷ ks) = not (has_key k ks) && are_distinct ks

pub has_key-lru_drop :
    (key j : List ℕ) (ks : List (List ℕ)) → has_key j (lru_drop key ks) ≡ true → has_key j ks ≡ true
unfolding has_key lru_drop
has_key-lru_drop key j [] h = cc
has_key-lru_drop key j (k ∷ ks) h = elim (Bool-cases (key_eq k key)) [
  | inl hit ↦ let rest : has_key j ks ≡ true = rw hit at h in ground (arith, rest)
  | inr miss ↦
      let h' : key_eq k j || has_key j (lru_drop key ks) ≡ true = rw miss at h in
      elim (Bool-cases (key_eq k j)) [
        | inl here ↦ ground (arith, here)
        | inr there ↦
            let late : has_key j (lru_drop key ks) ≡ true = ground (arith, h', there) in
            ground (arith, has_key-lru_drop key j ks late)
      ]
]

-- another key stays on the list
pub lru_drop-others :
    (key j : List ℕ) (ks : List (List ℕ))
    → key_eq key j ≡ false
    → has_key j (lru_drop key ks) ≡ has_key j ks
unfolding has_key lru_drop
lru_drop-others key j [] ne = refl
lru_drop-others key j (k ∷ ks) ne = elim (Bool-cases (key_eq k key)) [
  | inl hit ↦
      let same : k ≡ key = (key_eq_iff k key).0 hit in
      let miss : key_eq k j ≡ false = ap (λ z. key_eq z j) same ∙ ne in rw (hit, miss) refl
  | inr miss ↦ rw miss (ap (λ b. key_eq k j || b) (lru_drop-others key j ks ne))
]

pub are_distinct-lru_drop :
    (key : List ℕ) (ks : List (List ℕ))
    → are_distinct ks ≡ true
    → (are_distinct (lru_drop key ks) ≡ true) × (has_key key (lru_drop key ks) ≡ false)
unfolding are_distinct lru_drop has_key
are_distinct-lru_drop key [] d = (refl, refl)
are_distinct-lru_drop key (k ∷ ks) d =
    let no : has_key k ks ≡ false = ground (arith, d) in
    let rest : are_distinct ks ≡ true = ground (arith, d) in
    elim (Bool-cases (key_eq k key)) [
      | inl hit ↦
          let same : k ≡ key = (key_eq_iff k key).0 hit in
          rw hit (rest, ap (λ z. has_key z ks) (sym same) ∙ no)
      | inr miss ↦
          let w = are_distinct-lru_drop key ks rest in
          let gone : has_key k (lru_drop key ks) ≡ false =
            elim (Bool-cases (has_key k (lru_drop key ks))) [
              | inr out ↦ out
              | inl still ↦ absurd (let z = has_key-lru_drop key k ks still in cc)
            ] in
          rw miss (rw (gone, w.0) refl, rw (miss, w.1) refl)
    ]

pub length-lru_drop :
    (key : List ℕ) (ks : List (List ℕ))
    → has_key key ks ≡ true
    → length (lru_drop key ks) + 1 ≡ length ks
unfolding has_key lru_drop
length-lru_drop key [] h = absurd cc
length-lru_drop key (k ∷ ks) h = elim (Bool-cases (key_eq k key)) [
  | inl hit ↦ rw hit (omega arith)
  | inr miss ↦
      let rest : has_key key ks ≡ true = ground (arith, h, miss) in
      rw miss (let z = length-lru_drop key ks rest in omega (arith, z))
]

-- On an LRU list without repetition, `ls_lru_touch` puts the record at the head of what
-- `ls_lru_drop` of the record leaves, the list has no repetition, and exactly the record and those
-- that were on it are on it.
pub lru_touch-head :
    (key : List ℕ) (ks : List (List ℕ))
    → are_distinct ks ≡ true
    → (lru_touch key ks ≡ key ∷ lru_drop key ks)
      × (are_distinct (lru_touch key ks) ≡ true)
      × ((j : List ℕ) → has_key j (lru_touch key ks) ≡ key_eq key j || has_key j ks)
unfolding lru_touch lru_drop are_distinct has_key
lru_touch-head key [] d = (refl, refl, λ j. refl)
lru_touch-head key (k ∷ ks) d = elim (Bool-cases (key_eq k key)) [
  | inl hit ↦
      let same : k ≡ key = (key_eq_iff k key).0 hit in
      rw hit (
        ap (λ z. z ∷ ks) same,
        d,
        λ j. elim (Bool-cases (key_eq k j)) [
          | inl here ↦ rw here (ground arith)
          | inr there ↦
              let t : key_eq key j ≡ false = ap (λ z. key_eq z j) (sym same) ∙ there in
              rw (there, t) refl
        ],
      )
  | inr miss ↦
      let w = are_distinct-lru_drop key (k ∷ ks) d in
      let drops : lru_drop key (k ∷ ks) ≡ k ∷ lru_drop key ks = rw miss refl in
      rw miss (
        refl,
        ground (arith, w.0, w.1, drops, miss),
        λ j. elim (Bool-cases (key_eq key j)) [
          | inl here ↦ ground (arith, here)
          | inr there ↦ ground (arith, there, lru_drop-others key j ks there)
        ],
      )
]
