-- ===== src/Store/Insert.antt =====
-- src/store.c: `if (!r) r = ls_toc_insert(s, key)` on a well-formed store.
use libspill.Base.{
  [], ℕ, ◌≡◌, refl, inl, inr, true, false, Option, none, some, List, arith, Bool-cases,
  Option-cases, ap, sym, ◌∙◌,
}
use libspill.Alloc.Shape.{in_holes}
use libspill.Toc.{Rec, Table, key_eq, toc_find, toc_insert, fresh_rec}
use libspill.Toc.Chain.{key_eq_iff, key_eq_refl}
use libspill.Toc.Laws.{IsTable, bound_to, Inserted, fresh, toc_insert-Inserted}
use libspill.Toc.Laws as Laws
use libspill.Os.{Os, IsPosix}
use libspill.Scatter.Write.{logical, capacity}
use libspill.Extents.Holding.{Holding, content}
use libspill.Store.{Store, find_or_insert}
use libspill.Store.Invariant.{
  IsStore, SameView, SameView-refl, rec_size, rec_attr, rec_byte, toc_find-key,
}
use libspill.Store.Listed.{IsTier, rec_mem}

-- the size of a record, 0 where there is none
unfoldable pub size_of : Option Rec → ℕ
size_of none = 0
size_of (some r) = r.size

module _ (os : Os) (posix : IsPosix os) where
  -- A caller sees the same, an empty record where there was none.
  pub record SameBytes (s t : Store os) (key : List ℕ) : Type 0 where
    pub size : size_of (toc_find t.table key) ≡ size_of (toc_find s.table key)
    pub attr : rec_attr (toc_find t.table key) ≡ rec_attr (toc_find s.table key)
    pub bytes :
        (p : ℕ)
        → rec_byte (toc_find t.table key) (os.byte_at t.space.file) p
          ≡ rec_byte (toc_find s.table key) (os.byte_at s.space.file) p

  size_of-rec_size : (a b : Option Rec) → rec_size a ≡ rec_size b → size_of a ≡ size_of b
  unfolding size_of rec_size
  size_of-rec_size none none e = refl
  size_of-rec_size none (some r) e = absurd cc
  size_of-rec_size (some r) none e = absurd cc
  size_of-rec_size (some r) (some q) e = cc

  pub SameView-SameBytes :
      (s t : Store os) (key : List ℕ) → SameView os posix s t key → SameBytes s t key
  SameView-SameBytes s t key v = record {
    size = size_of-rec_size (toc_find t.table key) (toc_find s.table key) v.size;
    attr = v.attr;
    bytes = v.bytes;
  }

  pub SameBytes-trans :
      (s t u : Store os) (key : List ℕ) → SameBytes s t key → SameBytes t u key → SameBytes s u key
  SameBytes-trans s t u key a b = record {
    size = b.size ∙ a.size;
    attr = b.attr ∙ a.attr;
    bytes = λ p. b.bytes p ∙ a.bytes p;
  }

  -- How the look-up or insertion ends.
  pub data Found (s : Store os) (key : List ℕ) (res : Store os × Option Rec) : Type 0 where
    found :
        (r : Rec)
        → res.1 ≡ some r
        → r.key ≡ key
        → toc_find res.0.table r.key ≡ some r
        → IsStore os posix res.0
        → IsTier os res.0
        → res.0.space ≡ s.space
        → res.0.tier ≡ s.tier
        → SameBytes s res.0 key
        → ((j : List ℕ) → key_eq key j ≡ false → SameView os posix s res.0 j)
        → (toc_find s.table key ≡ none → (r.mem ≡ none) × (r.ext ≡ []))
        → Found s key res
    refused :
        res.1 ≡ none
        → IsStore os posix res.0
        → IsTier os res.0
        → ((j : List ℕ) → SameView os posix s res.0 j)
        → Found s key res

  -- The table of a store is replaced by one that finds the same records, or a fresh one more.
  module _ (s : Store os) (t : Table) (v : IsStore os posix s) (l : IsTier os s)
      (w : IsTable t) where
    same_find-IsStore :
        ((j : List ℕ) → toc_find t j ≡ toc_find s.table j)
        → IsStore os posix (record s { table = t })
          × IsTier os (record s { table = t })
          × ((j : List ℕ) → SameView os posix s (record s { table = t }) j)
    same_find-IsStore e = (
      record {
        table = w;
        sound = v.sound;
        live = v.live;
        holding = λ key r f. v.holding key r (sym (e key) ∙ f);
        disjoint = λ k j r q f g. v.disjoint k j r q (sym (e k) ∙ f) (sym (e j) ∙ g);
      },
      record { apart = l.apart; resident = λ k h z. l.resident k h (ap rec_mem (sym (e k)) ∙ z) },
      λ j. record {
        size = ap rec_size (e j);
        attr = ap rec_attr (e j);
        bytes = λ p. ap (λ o. rec_byte o (os.byte_at s.space.file) p) (e j);
      },
    )

    module _ (key : List ℕ) (new : toc_find s.table key ≡ none)
        (e : (j : List ℕ)
          → toc_find t j ≡ bound_to key (some (fresh_rec key)) (toc_find s.table) j) where
      fresh_hit : (j : List ℕ) → key_eq key j ≡ true → toc_find t j ≡ some (fresh_rec key)
      fresh_hit j h = e j ∙ rw h refl

      fresh_miss : (j : List ℕ) → key_eq key j ≡ false → toc_find t j ≡ toc_find s.table j
      fresh_miss j h = e j ∙ rw h refl

      fresh-Holding : Holding os posix s.space (fresh_rec key)
      unfolding logical capacity
      fresh-Holding = record {
        apart = tt;
        used = λ x i. absurd cc;
        total = refl;
        slots = omega arith;
        tail = λ p b. refl;
        fits = omega arith;
      }

      is_fresh :
          (j : List ℕ) (r : Rec) → key_eq key j ≡ true → toc_find t j ≡ some r → fresh_rec key ≡ r
      is_fresh j r h f = let q : some (fresh_rec key) ≡ some r = sym (fresh_hit j h) ∙ f in cc

      fresh-Found : Found s key (record s { table = t }, some (fresh_rec key))
      unfolding size_of rec_attr rec_byte rec_mem content logical
      fresh-Found =
          found (fresh_rec key) refl refl (fresh_hit key (key_eq_refl key))
            (record {
              table = w;
              sound = v.sound;
              live = v.live;
              holding = λ j r f. elim (Bool-cases (key_eq key j)) [
                | inl hit ↦ rw (← is_fresh j r hit f) fresh-Holding
                | inr miss ↦ v.holding j r (sym (fresh_miss j miss) ∙ f)
              ];
              disjoint = λ k j a b fk fj ne x i. elim (Bool-cases (key_eq key k)) [
                | inl hit ↦
                    absurd
                      (let no : in_holes a.ext x ≡ false = rw (← is_fresh k a hit fk) refl in cc)
                | inr miss ↦ elim (Bool-cases (key_eq key j)) [
                  | inl hit' ↦ rw (← is_fresh j b hit' fj) refl
                  | inr miss' ↦
                      v.disjoint k j a b (sym (fresh_miss k miss) ∙ fk)
                        (sym (fresh_miss j miss') ∙ fj) ne x i
                ]
              ];
            })
            (record {
              apart = l.apart;
              resident = λ k h z. elim (Bool-cases (key_eq key k)) [
                | inr miss ↦ l.resident k h (ap rec_mem (sym (fresh_miss k miss)) ∙ z)
                | inl hit ↦
                    let same : key ≡ k = (key_eq_iff key k).0 hit in
                    l.resident k h
                      (ap (λ j. rec_mem (toc_find s.table j)) (sym same) ∙ ap rec_mem new)
              ];
            })
            refl refl
            (record {
              size = ap size_of (fresh_hit key (key_eq_refl key)) ∙ sym (ap size_of new);
              attr = ap rec_attr (fresh_hit key (key_eq_refl key)) ∙ sym (ap rec_attr new);
              bytes = λ p.
                  ap (λ o. rec_byte o (os.byte_at s.space.file) p) (fresh_hit key (key_eq_refl key))
                  ∙ sym (ap (λ o. rec_byte o (os.byte_at s.space.file) p) new);
            })
            (λ j miss. record {
              size = ap rec_size (fresh_miss j miss);
              attr = ap rec_attr (fresh_miss j miss);
              bytes = λ p. ap (λ o. rec_byte o (os.byte_at s.space.file) p) (fresh_miss j miss);
            })
            (λ z. (refl, refl))

  -- The record under a key, looked up or inserted.
  module _ (s : Store os) (key : List ℕ) (v : IsStore os posix s) (l : IsTier os s) where
    Inserted-Found :
        (res : Table × Option Rec)
        → toc_find s.table key ≡ none
        → Inserted s.table key res
        → Found s key (record s { table = res.0 }, res.1)
    Inserted-Found (t, some r) new (Laws.refused e w n same) = absurd cc
    Inserted-Found (t, none) new (Laws.refused e w n same) =
        let k = same_find-IsStore s t v l w same in refused refl k.0 k.1 k.2
    Inserted-Found (t, none) new (fresh e w n same) = absurd cc
    Inserted-Found (t, some r) new (fresh e w n same) =
        let q : fresh_rec key ≡ r = cc in rw (← q) (fresh-Found s t v l w key new same)

    pub find_or_insert-Found : Found s key (find_or_insert os s key)
    unfolding find_or_insert
    find_or_insert-Found = elim (Option-cases (toc_find s.table key)) [
      | inl new ↦
          rw (new, find_or_insert)
            (Inserted-Found (toc_insert s.table key) new
              (toc_insert-Inserted s.table key v.table new))
      | inr (r, there) ↦
          let k = toc_find-key s.table key r there in
          rw (there, find_or_insert)
            (found r refl k (ap (toc_find s.table) k ∙ there) v l refl refl
              (SameView-SameBytes s s key (SameView-refl os posix s key))
              (λ j miss. SameView-refl os posix s j)
              (λ gone. absurd (let z : none ≡ some r = sym gone ∙ there in cc)))
    ]
