-- ===== src/Store/Invariant.antt =====
-- The invariant of a store, and what a change of one record does to the others.
use libspill.Base.{
  ℕ, ◌≡◌, refl, inl, inr, true, false, ◌||◌, Option, none, some, List, [], ◌∷◌, arith, Bool-cases,
  ap, ◌∙◌,
}
use libspill.Alloc.Shape.{in_holes}
use libspill.Alloc.Insert.{IsSound, is_free}
use libspill.Toc.{Rec, Table, key_eq, toc_find, find_chain, chain_at}
use libspill.Toc.Chain.{key_eq_iff}
use libspill.Toc.Laws.{IsTable}
use libspill.Os.{Os, IsPosix}
use libspill.Scatter.Write.{logical}
use libspill.Scatter.Touch.{logical-same}
use libspill.Extents.{Space}
use libspill.Extents.Holding.{Holding, Moves, content}
use libspill.Store.{Store}

find_chain-key : (key : List ℕ) (c : List Rec) (r : Rec) → find_chain key c ≡ some r → r.key ≡ key
unfolding find_chain
find_chain-key key [] r e = cc
find_chain-key key (q ∷ c) r e = elim (Bool-cases (key_eq q.key key)) [
  | inl here ↦
      let same : some q ≡ some r = rw here at e in
      let q_r : q ≡ r = cc in rw (← q_r) ((key_eq_iff q.key key).0 here)
  | inr there ↦ find_chain-key key c r (rw there at e)
]

pub toc_find-key : (t : Table) (key : List ℕ) (r : Rec) → toc_find t key ≡ some r → r.key ≡ key
unfolding toc_find
toc_find-key t key r e = find_chain-key key (chain_at t.tab key) r e

-- What a caller can see of the record under a key: its size, its attribute and its bytes.
unfoldable pub rec_size : Option Rec → Option ℕ
rec_size none = none
rec_size (some r) = some r.size

unfoldable pub rec_attr : Option Rec → List ℕ
rec_attr none = []
rec_attr (some r) = r.attr

unfoldable pub rec_byte : Option Rec → (ℕ → ℕ) → ℕ → ℕ
rec_byte none m p = 0
rec_byte (some r) m p = content r.mem r.ext m p

module _ (os : Os) (posix : IsPosix os) where
  pub record IsStore (s : Store os) : Type 0 where
    pub table : IsTable s.table
    pub sound : IsSound s.space.alloc
    pub live : s.space.alloc.teardown ≡ false
    pub holding :
        (key : List ℕ) (r : Rec) → toc_find s.table key ≡ some r → Holding os posix s.space r
    pub disjoint :
        (k j : List ℕ) (r q : Rec)
        → toc_find s.table k ≡ some r
        → toc_find s.table j ≡ some q
        → key_eq k j ≡ false
        → (x : ℕ) → in_holes r.ext x ≡ true
        → in_holes q.ext x ≡ false

  -- A caller sees the same under the key.
  pub record SameView (s t : Store os) (key : List ℕ) : Type 0 where
    pub size : rec_size (toc_find t.table key) ≡ rec_size (toc_find s.table key)
    pub attr : rec_attr (toc_find t.table key) ≡ rec_attr (toc_find s.table key)
    pub bytes :
        (p : ℕ)
        → rec_byte (toc_find t.table key) (os.byte_at t.space.file) p
          ≡ rec_byte (toc_find s.table key) (os.byte_at s.space.file) p

  pub SameView-refl : (s : Store os) (key : List ℕ) → SameView s s key
  SameView-refl s key = record { size = refl; attr = refl; bytes = λ p. refl }

  pub SameView-trans :
      (s t u : Store os) (key : List ℕ) → SameView s t key → SameView t u key → SameView s u key
  SameView-trans s t u key a b = record {
    size = b.size ∙ a.size;
    attr = b.attr ∙ a.attr;
    bytes = λ p. b.bytes p ∙ a.bytes p;
  }

  -- A record is replaced: the new one holds its extents, which were its own or free, and no byte
  -- that is another record's changes.
  pub record Updates (s : Space os) (r : Rec) (s' : Space os) (r' : Rec) : Type 0 where
    pub sound : IsSound s'.alloc
    pub live : s'.alloc.teardown ≡ false
    pub holding : Holding os posix s' r'
    pub key : r'.key ≡ r.key
    pub from : (x : ℕ) → in_holes r'.ext x ≡ true → in_holes r.ext x || is_free s.alloc x ≡ true
    pub in_use : (x : ℕ) → is_free s.alloc x ≡ false → is_free s'.alloc x ≡ false
    pub same :
        (x : ℕ)
        → is_free s.alloc x ≡ false
        → in_holes r.ext x ≡ false
        → os.byte_at s'.file x ≡ os.byte_at s.file x

  pub Moves-Updates : (s s' : Space os) (r r' : Rec) → Moves os posix s r s' r' → Updates s r s' r'
  Moves-Updates s s' r r' m = record {
    sound = m.sound;
    live = m.live;
    holding = m.holding;
    key = ap (λ (z : Rec). z.key) m.others;
    from = m.from;
    in_use = m.in_use;
    same = m.same;
  }

  -- Another record, whose extents are apart from those of the one that is replaced.
  pub Updates-Holding :
      (s s' : Space os) (r r' q : Rec)
      → Updates s r s' r'
      → ((x : ℕ) → in_holes r.ext x ≡ true → in_holes q.ext x ≡ false)
      → Holding os posix s q
      → Holding os posix s' q
        × ((p : ℕ) → logical q.ext (os.byte_at s'.file) p ≡ logical q.ext (os.byte_at s.file) p)
  Updates-Holding s s' r r' q u d h =
      let mine : (x : ℕ) → in_holes q.ext x ≡ true → os.byte_at s'.file x ≡ os.byte_at s.file x =
        λ x i. u.same x (h.used x i) (ground (arith, d x, i)) in
      let reads = λ (p : ℕ). logical-same q.ext (os.byte_at s.file) (os.byte_at s'.file) p mine in
      (
        record {
          apart = h.apart;
          used = λ x i. u.in_use x (h.used x i);
          total = h.total;
          slots = h.slots;
          tail = λ p l. reads p ∙ h.tail p l;
          fits = h.fits;
        },
        reads,
      )
