-- ===== src/Store/Replace.antt =====
-- A record of the store is replaced: the store stays well formed and no other record's view changes.
use libspill.Base.{
  ℕ, ◌≡◌, refl, inl, inr, true, false, Option, none, some, List, arith, Bool-cases, Option-cases,
  ap, sym, ◌∙◌,
}
use libspill.Alloc.Shape.{in_holes}
use libspill.Toc.{Rec, key_eq, toc_find, toc_write}
use libspill.Toc.Chain.{key_eq_iff, key_eq_refl}
use libspill.Toc.Laws.{IsTable, bound_to, toc_write-find}
use libspill.Os.{Os, IsPosix}
use libspill.Extents.Holding.{Holding, Moves, content}
use libspill.Store.{Store}
use libspill.Store.Invariant.{
  IsStore, SameView, Updates, Updates-Holding, Moves-Updates, rec_size, rec_attr, rec_byte,
}

key_eq_same : (a j k : List ℕ) → key_eq a j ≡ true → key_eq a k ≡ true → key_eq j k ≡ true
key_eq_same a j k x y =
    let p : a ≡ j = (key_eq_iff a j).0 x in
    let q : a ≡ k = (key_eq_iff a k).0 y in (key_eq_iff j k).1 (sym p ∙ q)

module _ (os : Os) (posix : IsPosix os) where
  -- What a change of one record leaves.
  pub record Replaced (s u : Store os) (r' : Rec) : Type 0 where
    pub store : IsStore os posix u
    pub here : toc_find u.table r'.key ≡ some r'
    pub elsewhere : (j : List ℕ) → key_eq r'.key j ≡ false → toc_find u.table j ≡ toc_find s.table j
    pub others : (j : List ℕ) → key_eq r'.key j ≡ false → SameView os posix s u j

  module _ (s u : Store os) (r r' : Rec) (v : IsStore os posix s)
      (found : toc_find s.table r.key ≡ some r) (written : u.table ≡ toc_write s.table r')
      (up : Updates os posix s.space r u.space r') where
    replaced_find :
        IsTable u.table
        × ((j : List ℕ) → toc_find u.table j ≡ bound_to r'.key (some r') (toc_find s.table) j)
    replaced_find =
        let old : toc_find s.table r'.key ≡ some r = ap (toc_find s.table) up.key ∙ found in
        let w = toc_write-find s.table r' r v.table old in
        (rw written w.0, λ j. ap (λ t. toc_find t j) written ∙ w.1 j)

    replaced_hit : (j : List ℕ) → key_eq r'.key j ≡ true → toc_find u.table j ≡ some r'
    replaced_hit j h = replaced_find.1 j ∙ rw h refl

    replaced_miss : (j : List ℕ) → key_eq r'.key j ≡ false → toc_find u.table j ≡ toc_find s.table j
    replaced_miss j h = replaced_find.1 j ∙ rw h refl

    apart_before :
        (j : List ℕ) (q : Rec)
        → toc_find s.table j ≡ some q
        → key_eq r'.key j ≡ false
        → (x : ℕ) → in_holes r.ext x ≡ true
        → in_holes q.ext x ≡ false
    apart_before j q f ne =
        let ne' : key_eq r.key j ≡ false = ap (λ k. key_eq k j) (sym up.key) ∙ ne in
        v.disjoint r.key j r q found f ne'

    apart_after :
        (j : List ℕ) (q : Rec)
        → toc_find s.table j ≡ some q
        → key_eq r'.key j ≡ false
        → (x : ℕ) → in_holes r'.ext x ≡ true
        → in_holes q.ext x ≡ false
    apart_after j q f ne x i = elim (Bool-cases (in_holes q.ext x)) [
      | inr out ↦ out
      | inl mine ↦
          let used = (v.holding j q f).used x mine in
          let came = up.from x i in
          let r_in : in_holes r.ext x ≡ true = ground (arith, came, used) in
          apart_before j q f ne x r_in
    ]

    replaced-Holding :
        (j : List ℕ) (q : Rec) → toc_find u.table j ≡ some q → Holding os posix u.space q
    replaced-Holding j q f = elim (Bool-cases (key_eq r'.key j)) [
      | inl hit ↦
          let e : some r' ≡ some q = sym (replaced_hit j hit) ∙ f in
          let same : r' ≡ q = cc in rw (← same) up.holding
      | inr miss ↦
          let old = sym (replaced_miss j miss) ∙ f in
          (Updates-Holding os posix s.space u.space r r' q up (apart_before j q old miss)
            (v.holding j q old)).0
    ]

    replaced_disjoint :
        (k j : List ℕ) (a b : Rec)
        → toc_find u.table k ≡ some a
        → toc_find u.table j ≡ some b
        → key_eq k j ≡ false
        → (x : ℕ) → in_holes a.ext x ≡ true
        → in_holes b.ext x ≡ false
    replaced_disjoint k j a b fk fj ne x i = elim (Bool-cases (key_eq r'.key k)) [
      | inl hit ↦
          let e : some r' ≡ some a = sym (replaced_hit k hit) ∙ fk in
          let same : a ≡ r' = cc in
          let i' : in_holes r'.ext x ≡ true = ap (λ (z : Rec). in_holes z.ext x) (sym same) ∙ i in
          elim (Bool-cases (key_eq r'.key j)) [
            | inl hit' ↦ absurd (let t = key_eq_same r'.key k j hit hit' in cc)
            | inr miss' ↦ apart_after j b (sym (replaced_miss j miss') ∙ fj) miss' x i'
          ]
      | inr miss ↦
          let old = sym (replaced_miss k miss) ∙ fk in
          elim (Bool-cases (key_eq r'.key j)) [
            | inl hit' ↦
                let e : some r' ≡ some b = sym (replaced_hit j hit') ∙ fj in
                let same : r' ≡ b = cc in
                elim (Bool-cases (in_holes b.ext x)) [
                  | inr out ↦ out
                  | inl both ↦
                      let i' : in_holes r'.ext x ≡ true =
                        ap (λ (z : Rec). in_holes z.ext x) same ∙ both in
                      let no = apart_after k a old miss x i' in
                      absurd (let z : true ≡ false = sym i ∙ no in cc)
                ]
            | inr miss' ↦ v.disjoint k j a b old (sym (replaced_miss j miss') ∙ fj) ne x i
          ]
    ]

    same_bytes :
        (j : List ℕ) (o : Option Rec)
        → key_eq r'.key j ≡ false
        → toc_find s.table j ≡ o
        → (p : ℕ) → rec_byte o (os.byte_at u.space.file) p ≡ rec_byte o (os.byte_at s.space.file) p
    unfolding rec_byte content
    same_bytes j none ne f p = refl
    same_bytes j (some q) ne f p =
        let reads =
          (Updates-Holding os posix s.space u.space r r' q up (apart_before j q f ne)
            (v.holding j q f)).1 in
        elim (Option-cases q.mem) [ inl e ↦ rw e (reads p) | inr (m, e) ↦ rw e refl ]

    pub Updates-Replaced : Replaced s u r'
    Updates-Replaced = record {
      store = record {
        table = replaced_find.0;
        sound = up.sound;
        live = up.live;
        holding = replaced-Holding;
        disjoint = replaced_disjoint;
      };
      here = replaced_hit r'.key (key_eq_refl r'.key);
      elsewhere = replaced_miss;
      others = λ j ne. record {
        size = ap rec_size (replaced_miss j ne);
        attr = ap rec_attr (replaced_miss j ne);
        bytes = λ p.
            ap (λ o. rec_byte o (os.byte_at u.space.file) p) (replaced_miss j ne)
            ∙ same_bytes j (toc_find s.table j) ne refl p;
      };
    }

  -- A record whose bytes only moved shows what it showed, so that no view changes.
  pub Moves-SameView :
      (s u : Store os) (r r' : Rec)
      → IsStore os posix s
      → toc_find s.table r.key ≡ some r
      → u.table ≡ toc_write s.table r'
      → Moves os posix s.space r u.space r'
      → Replaced s u r' × ((j : List ℕ) → SameView os posix s u j)
  unfolding rec_size rec_attr content rec_byte
  Moves-SameView s u r r' v found w m =
      let p = Updates-Replaced s u r r' v found w (Moves-Updates os posix s.space u.space r r' m) in
      let k : r'.key ≡ r.key = ap (λ (z : Rec). z.key) m.others in
      (
        p,
        λ j. elim (Bool-cases (key_eq r'.key j)) [
          | inr miss ↦ p.others j miss
          | inl hit ↦
              let j_k : r'.key ≡ j = (key_eq_iff r'.key j).0 hit in
              let new : toc_find u.table j ≡ some r' = ap (toc_find u.table) (sym j_k) ∙ p.here in
              let old : toc_find s.table j ≡ some r = ap (toc_find s.table) (sym j_k ∙ k) ∙ found in
              record {
                size =
                    ap rec_size new
                    ∙ ap (λ (z : Rec). some z.size) m.others
                    ∙ sym (ap rec_size old);
                attr = ap rec_attr new ∙ ap (λ (z : Rec). z.attr) m.others ∙ sym (ap rec_attr old);
                bytes = λ x.
                    ap (λ o. rec_byte o (os.byte_at u.space.file) x) new
                    ∙ m.reads x
                    ∙ sym (ap (λ o. rec_byte o (os.byte_at s.space.file) x) old);
              }
        ],
      )
