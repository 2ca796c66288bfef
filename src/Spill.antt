-- ===== src/Spill.antt =====
-- src/store.c, the memory tier: `spill`. The doubly linked LRU list is the list of its records' keys,
-- most recently used first; its pointers are not modelled, and `lru_drop` and `lru_touch` say what
-- `ls_lru_drop` and `ls_lru_touch` are meant to do to the list. `mem_cap` is the length of the buffer.
pub mod Laws
pub mod Lru
use Prim.Native.Nat.{min}
use libspill.Base.{
  ℕ, zero, suc, ◌+◌, ◌-◌, Bool, true, false, Option, none, some, List, [], ◌∷◌, leb, if◌then◌else◌,
  length, take, drop,
}
use libspill.Alloc.{Extent}
use libspill.Toc.{Rec, key_eq}
use libspill.Status.{Status, done}
use libspill.Os.{Os}
use libspill.Io.{ls_pwrite_all}
use libspill.Scatter.{and_then}
use libspill.Extents.{Space, ensure_extents}

pub record Tier : Type 0 where
  pub resident : ℕ
  pub lru : List (List ℕ)

unfoldable pub lru_drop : List ℕ → List (List ℕ) → List (List ℕ)
lru_drop key [] = []
lru_drop key (k ∷ ks) = if key_eq k key then ks else k ∷ lru_drop key ks

unfoldable pub lru_touch : List ℕ → List (List ℕ) → List (List ℕ)
unfolding lru_drop
lru_touch key [] = key ∷ []
lru_touch key (k ∷ ks) = if key_eq k key then k ∷ ks else key ∷ lru_drop key (k ∷ ks)

-- the record's buffer is freed
unfoldable pub release : Tier → Rec → ℕ → Tier
unfolding lru_drop
release t r cap = record {
  resident = if leb cap t.resident then t.resident - cap else t.resident;
  lru = lru_drop r.key t.lru;
}

module _ (os : Os) where
  -- the loop over the extents, with the bytes that are left
  unfoldable pub spill_out : os.File → List Extent → List ℕ → os.File × Option Status
  spill_out f [] bs = (f, some done)
  spill_out f (e ∷ es) [] = (f, some done)
  spill_out f (e ∷ es) (b ∷ bs) =
      let k = min e.len (length (b ∷ bs)) in
      and_then os (ls_pwrite_all os f (take k (b ∷ bs)) e.foff)
        (λ f'. spill_out f' es (drop k (b ∷ bs)))

  -- by the outcome of the loop
  abbrev pub after_spill_out :
      Space os → Tier → Rec → ℕ → os.File × Option Status → Space os × Tier × Rec × Option Status
  after_spill_out s t r cap (f, some done) =
      (record s { file = f }, release t r cap, record r { mem = none }, some done)
  after_spill_out s t r cap (f, some e) = (record s { file = f }, t, r, some e)
  after_spill_out s t r cap (f, none) = (record s { file = f }, t, r, none)

  -- by the outcome of `ensure_extents`
  unfoldable pub after_ensure :
      Tier → List ℕ → Space os × Rec × Option Status → Space os × Tier × Rec × Option Status
  unfolding spill_out release
  after_ensure t m (s, r, some done) =
      after_spill_out s t r (length m) (spill_out s.file r.ext (take r.size m))
  after_ensure t m (s, r, some e) = (s, t, r, some e)
  after_ensure t m (s, r, none) = (s, t, r, none)

  -- by the record's buffer
  unfoldable pub spill_mem :
      Option (List ℕ) → Space os → Tier → Rec → Space os × Tier × Rec × Option Status
  unfolding after_ensure
  spill_mem none s t r = (s, t, r, some done)
  spill_mem (some m) s t r = after_ensure t m (ensure_extents os r.size s r)

  unfoldable pub spill : Space os → Tier → Rec → Space os × Tier × Rec × Option Status
  unfolding spill_mem
  spill s t r = spill_mem r.mem s t r
