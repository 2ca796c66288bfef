-- ===== src/Store.antt =====
-- `struct ls_store` of src/internal.h as the data path of src/store.c sees it, without HDF5. The
-- functions below are called with `toc_lk` held. `reports` are the calls of the log callback that
-- `ls_report` of src/error.c made, latest first.
pub mod Capacity
pub mod Transfer
pub mod Append
pub mod Keys
pub mod Accumulate
pub mod Invariant
pub mod Listed
pub mod Counted
pub mod Insert
pub mod Evict
pub mod Ensure
pub mod Begin
pub mod Land
pub mod Write
pub mod Fetch
pub mod Read
pub mod RoundTrip
pub mod Appended
pub mod Reserved
pub mod Replace
use Prim.Native.String.{String}
use libspill.Base.{
  ℕ, zero, suc, ◌+◌, ◌-◌, Bool, true, false, ◌&&◌, Option, none, some, List, [], ◌∷◌, ◌++◌, ltb,
  leb, if◌then◌else◌, ◌==◌, length, ◌+₆₄◌, ◌-₆₄◌,
}
use libspill.Toc.{Rec, Table, toc_find, toc_insert, toc_write}
use libspill.Status.{Status, done}
use libspill.Os.{Os}
use libspill.Options.{Opts}
use libspill.Extents.{Space}
use libspill.Spill.{Tier, lru_touch}
use libspill.Scatter.{Place}

pub record Report : Type 0 where
  pub err : Status
  pub key : List ℕ
  pub off : ℕ
  pub n : ℕ
  pub msg : String

abbrev pub is_done : Status → Bool
is_done done = true
is_done st = false

module _ (os : Os) where
  pub record Store : Type 0 where
    pub space : Space os
    pub table : Table
    pub tier : Tier
    pub opts : Opts
    pub reports : List Report

  unfoldable pub ls_report : Store → Status → List ℕ → ℕ → ℕ → String → Store
  ls_report s err key off n msg =
      if s.opts.log && (if is_done err then false else true)
      then record s {
        reports = record { err = err; key = key; off = off; n = n; msg = msg } ∷ s.reports;
      }
      else s

  -- what was stored through a record's pointer is seen in the table
  abbrev pub put : Store → Rec → Store
  put s r = record s { table = toc_write s.table r }

  -- `if (!r) r = ls_toc_insert(s, key)`
  unfoldable pub find_or_insert : Store → List ℕ → Store × Option Rec
  find_or_insert s key = elim (toc_find s.table key) [
    | some r ↦ (s, some r)
    | none ↦ let (t, r) = toc_insert s.table key in (record s { table = t }, r)
  ]

  abbrev pub place_of : Rec → Place
  place_of r = record { mem = r.mem; ext = r.ext }

  -- `if (r->mem) ls_lru_touch(s, r)`
  abbrev pub touched : Store → Rec → Store
  touched s r = elim r.mem [
    | none ↦ s
    | some m ↦ record s { tier = record s.tier { lru = lru_touch r.key s.tier.lru } }
  ]

  -- the record is pinned against eviction, and the snapshot of where its bytes are is taken
  unfoldable pub pin : Store → Rec → Store × Place
  pin s r = (put (touched s r) (record r { busy = r.busy + 1 }), place_of r)

  -- The end of a transfer. The bytes of a resident record were changed in place, through the
  -- snapshot.
  unfoldable pub unpin : Store → List ℕ → Option (List ℕ) → Store
  unpin s key mem = elim (toc_find s.table key) [
    | none ↦ s
    | some r ↦ put s (record r { mem = mem; busy = r.busy - 1 })
  ]
