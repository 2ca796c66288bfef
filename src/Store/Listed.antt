-- ===== src/Store/Listed.antt =====
-- The LRU list of a store: no repetition, and only records that are in memory.
use libspill.Base.{
  ℕ, ◌≡◌, ◌≢◌, inl, inr, true, false, ◌||◌, Option, none, some, List, arith, Bool-cases, ap, sym,
  ◌∙◌,
}
use libspill.Toc.{Rec, key_eq, toc_find}
use libspill.Toc.Chain.{key_eq_iff}
use libspill.Os.{Os, IsPosix}
use libspill.Spill.{lru_drop, lru_touch}
use libspill.Spill.Lru.{
  has_key, are_distinct, has_key-lru_drop, are_distinct-lru_drop, lru_touch-head,
}
use libspill.Store.{Store}
use libspill.Store.Replace.{Replaced}

unfoldable pub rec_mem : Option Rec → Option (List ℕ)
rec_mem none = none
rec_mem (some r) = r.mem

module _ (os : Os) where
  pub record IsTier (s : Store os) : Type 0 where
    pub apart : are_distinct s.tier.lru ≡ true
    pub resident : (k : List ℕ) → has_key k s.tier.lru ≡ true → rec_mem (toc_find s.table k) ≢ none

  module _ (posix : IsPosix os) (s u : Store os) (r r' : Rec) (t : IsTier s)
      (p : Replaced os posix s u r') (k : r'.key ≡ r.key)
      (found : toc_find s.table r.key ≡ some r) where
    pub mem_here : (j : List ℕ) → key_eq r'.key j ≡ true → rec_mem (toc_find u.table j) ≡ r'.mem
    unfolding rec_mem
    mem_here j hit =
        let same : r'.key ≡ j = (key_eq_iff r'.key j).0 hit in
        ap (λ z. rec_mem (toc_find u.table z)) (sym same) ∙ ap rec_mem p.here

    pub mem_before : (j : List ℕ) → key_eq r'.key j ≡ true → rec_mem (toc_find s.table j) ≡ r.mem
    unfolding rec_mem
    mem_before j hit =
        let same : r'.key ≡ j = (key_eq_iff r'.key j).0 hit in
        ap (λ z. rec_mem (toc_find s.table z)) (sym same ∙ k) ∙ ap rec_mem found

    mem_elsewhere :
        (j : List ℕ)
        → key_eq r'.key j ≡ false
        → rec_mem (toc_find s.table j) ≢ none
        → rec_mem (toc_find u.table j) ≢ none
    mem_elsewhere j miss old = λ e. old (ap rec_mem (sym (p.elsewhere j miss)) ∙ e)

    pub IsTier-same : u.tier.lru ≡ s.tier.lru → (r.mem ≢ none → r'.mem ≢ none) → IsTier u
    IsTier-same l m = record {
      apart = ap are_distinct l ∙ t.apart;
      resident = λ j h.
          let old = t.resident j (ap (has_key j) (sym l) ∙ h) in
          elim (Bool-cases (key_eq r'.key j)) [
            | inl hit ↦ λ e. m (λ z. old (mem_before j hit ∙ z)) (sym (mem_here j hit) ∙ e)
            | inr miss ↦ mem_elsewhere j miss old
          ];
    }

    pub IsTier-drop : u.tier.lru ≡ lru_drop r.key s.tier.lru → IsTier u
    IsTier-drop l =
        let w = are_distinct-lru_drop r.key s.tier.lru t.apart in
        record {
          apart = ap are_distinct l ∙ w.0;
          resident = λ j h.
              let h' : has_key j (lru_drop r.key s.tier.lru) ≡ true = ap (has_key j) (sym l) ∙ h in
              elim (Bool-cases (key_eq r'.key j)) [
                | inl hit ↦
                    let same : r.key ≡ j = sym k ∙ (key_eq_iff r'.key j).0 hit in
                    let no : has_key j (lru_drop r.key s.tier.lru) ≡ false =
                      ap (λ z. has_key z (lru_drop r.key s.tier.lru)) (sym same) ∙ w.1 in
                    absurd cc
                | inr miss ↦
                    mem_elsewhere j miss (t.resident j (has_key-lru_drop r.key j s.tier.lru h'))
              ];
        }

    pub IsTier-touch : u.tier.lru ≡ lru_touch r.key s.tier.lru → r'.mem ≢ none → IsTier u
    IsTier-touch l m =
        let w = lru_touch-head r.key s.tier.lru t.apart in
        record {
          apart = ap are_distinct l ∙ w.1;
          resident = λ j h.
              let h' : key_eq r.key j || has_key j s.tier.lru ≡ true =
                sym (w.2 j) ∙ ap (has_key j) (sym l) ∙ h in
              elim (Bool-cases (key_eq r'.key j)) [
                | inl hit ↦ λ e. m (sym (mem_here j hit) ∙ e)
                | inr miss ↦
                    let miss' : key_eq r.key j ≡ false = ap (λ z. key_eq z j) (sym k) ∙ miss in
                    mem_elsewhere j miss (t.resident j (ground (arith, h', miss')))
              ];
        }
