-- ===== src/FreeList.antt =====
-- src/open.c, `rebuild_free_list`: the free list of a reopened store, from the gaps between the
-- extents of its records. `qsort` is the C library's, and a parameter here: `IsSort` says what the
-- code relies on, that it permutes the array into the order of `cmp_ext`.
pub mod Gaps
pub mod Rebuild
use libspill.Base.{
  ℕ, ◌+◌, ◌-◌, ◌≡◌, ◌⊎◌, Bool, true, false, List, [], ◌∷◌, ◌++◌, ltb, if◌then◌else◌, length, ◌+₆₄◌,
  ◌-₆₄◌, ◌==◌, ◌≢◌,
}
use mathlib.Core.List.{Permᴰ}
use libspill.Alloc.{Hole, Extent, Alloc, super_size, free_extents, granted, later_grants}
use libspill.Toc.{Rec}
use libspill.Status.{Status, corrupt, no_memory, Result, ok, fail, refuse_if}

-- the sign of the comparison
pub data Sign : Type 0 where
  less equal greater : Sign

-- `x < y ? -1 : (x > y ? 1 : 0)`
unfoldable pub cmp_ext : Extent → Extent → Sign
cmp_ext a b = if ltb a.foff b.foff then less else if ltb b.foff a.foff then greater else equal

-- no element stands before a smaller one that follows it at once
abbrev pub InOrder : List Extent → Type 0
InOrder [] = Unit {0}
InOrder (a ∷ []) = Unit {0}
InOrder (a ∷ (b ∷ es)) = (cmp_ext a b ≢ greater) × InOrder (b ∷ es)

pub record IsSort (qsort : List Extent → List Extent) : Type 0 where
  pub permutes : (es : List Extent) → Permᴰ (qsort es) es
  pub sorts : (es : List Extent) → InOrder (qsort es)

unfoldable pub chain_extents : List Rec → List Extent
chain_extents [] = []
chain_extents (r ∷ c) = r.ext ++ chain_extents c

unfoldable pub all_extents : List (List Rec) → List Extent
all_extents [] = []
all_extents (c ∷ cs) = chain_extents c ++ all_extents cs

-- the loop over the sorted extents, with `cur` the end of the last one
unfoldable pub fill_gaps : Alloc → ℕ → List Extent → Result Alloc
fill_gaps s cur [] = ok s
fill_gaps s cur (e ∷ es) =
    let rest =
      fill_gaps
        (if ltb cur e.foff
          then free_extents s (record { foff = cur; len = e.foff -₆₄ cur } ∷ [])
          else s)
        (e.foff +₆₄ e.len) es in
    refuse_if (ltb e.foff cur) corrupt rest

unfoldable pub rebuild_free_list :
    (List Extent → List Extent) → Alloc → List (List Rec) → Result Alloc
unfolding fill_gaps
rebuild_free_list qsort s tab =
    let n = length (all_extents tab) in
    if n == 0
    then ok s
    else (refuse_if (if granted s.grants then false else true) no_memory (
        fill_gaps (record s { grants = later_grants s.grants }) super_size
          (qsort (all_extents tab))))
