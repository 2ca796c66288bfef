-- ===== src/Store/Counted.antt =====
-- src/store.c: the `resident` counter of the memory tier against the buffers of the records on the
-- LRU list.
use libspill.Base.{
  ℕ, ◌+◌, ◌≡◌, refl, inl, inr, true, false, Option, none, some, List, [], ◌∷◌, arith, Bool-cases,
  length, ap, sym, ◌∙◌,
}
use libspill.Toc.{Rec, key_eq, toc_find}
use libspill.Toc.Chain.{key_eq_iff}
use libspill.Os.{Os}
use libspill.Spill.{lru_drop}
use libspill.Spill.Lru.{has_key, are_distinct}
use libspill.Store.{Store}
use libspill.Store.Listed.{rec_mem}

abbrev pub mem_len : Option (List ℕ) → ℕ
mem_len none = 0
mem_len (some m) = length m

-- the lengths of the buffers of the records with these keys, added up
unfoldable pub listed_bytes : (List ℕ → Option Rec) → List (List ℕ) → ℕ
listed_bytes find [] = 0
listed_bytes find (k ∷ ks) = mem_len (rec_mem (find k)) + listed_bytes find ks

pub listed_bytes-agree :
    (f g : List ℕ → Option Rec) (ks : List (List ℕ))
    → ((k : List ℕ) → has_key k ks ≡ true → rec_mem (g k) ≡ rec_mem (f k))
    → listed_bytes g ks ≡ listed_bytes f ks
unfolding listed_bytes has_key
listed_bytes-agree f g [] h = refl
listed_bytes-agree f g (k ∷ ks) h =
    let here : mem_len (rec_mem (g k)) ≡ mem_len (rec_mem (f k)) =
      ap mem_len (h k (ground (arith, (key_eq_iff k k).1 refl))) in
    let rest = listed_bytes-agree f g ks (λ j i. h j (ground (arith, i))) in
    omega (arith, here, rest)

not_hit : (key k : List ℕ) → key_eq k key ≡ false → key_eq key k ≡ false
not_hit key k miss = elim (Bool-cases (key_eq key k)) [
  | inr apart ↦ apart
  | inl hit ↦
      let z : key_eq k key ≡ true = (key_eq_iff k key).1 (sym ((key_eq_iff key k).0 hit)) in
      absurd cc
]

-- The bytes of a record that leaves the list are counted no longer.
pub listed_bytes-lru_drop :
    (f g : List ℕ → Option Rec) (key m : List ℕ) (ks : List (List ℕ))
    → are_distinct ks ≡ true
    → has_key key ks ≡ true
    → rec_mem (f key) ≡ some m
    → ((k : List ℕ) → key_eq key k ≡ false → rec_mem (g k) ≡ rec_mem (f k))
    → listed_bytes f ks ≡ listed_bytes g (lru_drop key ks) + length m
unfolding listed_bytes has_key are_distinct lru_drop
listed_bytes-lru_drop f g key m [] d i e h = absurd cc
listed_bytes-lru_drop f g key m (k ∷ ks) d i e h =
    let no : has_key k ks ≡ false = ground (arith, d) in
    let rest : are_distinct ks ≡ true = ground (arith, d) in
    elim (Bool-cases (key_eq k key)) [
      | inl hit ↦
          let same : k ≡ key = (key_eq_iff k key).0 hit in
          let len : mem_len (rec_mem (f k)) ≡ length m =
            ap (λ z. mem_len (rec_mem (f z))) same ∙ ap mem_len e in
          let others = listed_bytes-agree f g ks (λ j l. h j (elim (Bool-cases (key_eq key j)) [
            | inr miss ↦ miss
            | inl also ↦
                let at : k ≡ j = same ∙ (key_eq_iff key j).0 also in
                let z : has_key k ks ≡ true = ap (λ x. has_key x ks) at ∙ l in absurd cc
          ])) in
          rw hit (omega (arith, len, others))
      | inr miss ↦
          let i' : has_key key ks ≡ true = ground (arith, i, miss) in
          let later = listed_bytes-lru_drop f g key m ks rest i' e h in
          let here : mem_len (rec_mem (g k)) ≡ mem_len (rec_mem (f k)) =
            ap mem_len (h k (not_hit key k miss)) in
          rw miss (omega (arith, here, later))
    ]

module _ (os : Os) where
  -- `resident` counts the buffers of the records on the LRU list.
  abbrev pub Counted : Store os → Type 0
  Counted s = s.tier.resident ≡ listed_bytes (toc_find s.table) s.tier.lru
