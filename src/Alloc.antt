-- ===== src/Alloc.antt =====
-- src/alloc.c: the extent allocator. The part of `ls_store` that it owns is the free list, sorted
-- by offset, the end of the file and the teardown flag. `grants` says of each coming `realloc`
-- whether it succeeds (past its end they all do), and `cuts` collects the lengths that are handed
-- to `ls_os_ftruncate`, latest first: the call is the last act of the function that makes it, and
-- whoever has the file applies them (`settle` in Extents). The lock makes each of these functions one step.
pub mod Shape
pub mod Merge
pub mod Insert
pub mod Take
pub mod Handout
pub mod Release
pub mod Live
use libspill.Base.{
  ℕ, zero, suc, ◌+◌, ◌-◌, ◌*◌, ◌/◌, Bool, true, false, ◌&&◌, Option, none, some, List, [], ◌∷◌, ltb,
  leb, ◌==◌, if◌then◌else◌, ◌+₆₄◌, ◌-₆₄◌, length,
}

abbrev pub super_size : ℕ
super_size = 4096

abbrev pub align : ℕ
align = 4096

-- `ls_hole` and `ls_extent`, which are the same struct
pub record Hole : Type 0 where
  pub foff : ℕ
  pub len : ℕ

abbrev pub Extent : Type 0
Extent = Hole

pub record Alloc : Type 0 where
  pub fl : List Hole
  pub flcap : ℕ
  pub file_end : ℕ
  pub teardown : Bool
  pub grants : List Bool
  pub cuts : List ℕ

-- `(n + (LS_ALIGN - 1)) & ~(LS_ALIGN - 1)`: the mask clears the low twelve bits
unfoldable pub round_up : ℕ → ℕ
round_up n = (n +₆₄ (align - 1)) / align * align

-- the offset just past a hole
unfoldable pub hole_end : Hole → ℕ
hole_end h = h.foff +₆₄ h.len

-- `while (cap < want) cap *= 2`, on fuel; `want` is at most twice `cap` plus one where it is called
unfoldable pub double_cap : ℕ → ℕ → ℕ → ℕ
double_cap zero want cap = cap
double_cap (suc fuel) want cap =
    let rest = double_cap fuel want (cap * 2) in if ltb cap want then rest else cap

abbrev pub granted : List Bool → Bool
granted [] = true
granted (g ∷ gs) = g

abbrev pub later_grants : List Bool → List Bool
later_grants [] = []
later_grants (g ∷ gs) = gs

-- `none` is -ENOMEM, with the state as it was but for the request that was refused
unfoldable pub fl_reserve : Alloc → ℕ → Alloc × Bool
fl_reserve s want =
    let cap = if s.flcap == 0 then 16 else s.flcap in
    if leb want s.flcap
    then (s, true)
    else (if granted s.grants
        then (record s { flcap = double_cap 64 want cap; grants = later_grants s.grants }, true)
        else (record s { grants = later_grants s.grants }, false))

-- The free list around the insertion point `i`: the holes before it, nearest first, and those
-- from it on.
pub record Cursor : Type 0 where
  pub before : List Hole
  pub after : List Hole

-- `for (i = 0; i < s->nfl && s->fl[i].foff < foff; i++)`
unfoldable pub seek : ℕ → List Hole → List Hole → Cursor
seek foff before [] = record { before = before; after = [] }
seek foff before (h ∷ after) =
    let rest = seek foff (h ∷ before) after in
    if ltb h.foff foff then rest else record { before = before; after = h ∷ after }

-- the array again, from a cursor
unfoldable pub rejoin : List Hole → List Hole → List Hole
rejoin [] after = after
rejoin (h ∷ before) after = rejoin before (h ∷ after)

-- the hole before the cursor grows over the freed range, where they touch
unfoldable pub merge_left : ℕ → ℕ → List Hole → Option (List Hole)
merge_left foff len [] = none
merge_left foff len (p ∷ before) =
    if hole_end p == foff then some (record p { len = p.len +₆₄ len } ∷ before) else none

-- the hole at the cursor, here the head of `before`, takes in the next one, where they touch
unfoldable pub merge_right : List Hole → List Hole → List Hole
merge_right [] after = rejoin [] after
merge_right (h ∷ before) [] = rejoin (h ∷ before) []
merge_right (h ∷ before) (n ∷ after) =
    if hole_end h == n.foff
    then rejoin (record h { len = h.len +₆₄ n.len } ∷ before) after
    else rejoin (h ∷ before) (n ∷ after)

-- the last hole, and the list without it
unfoldable pub split_last : List Hole → Option (List Hole × Hole)
split_last [] = none
split_last (h ∷ t) = elim (split_last t) [ none ↦ some ([], h) | some (i, l) ↦ some (h ∷ i, l) ]

-- a hole that runs to the end of the file is given back to the file system
unfoldable pub trim_tail : Alloc → Alloc
trim_tail s = elim (split_last s.fl) [
  | none ↦ s
  | some (init, last) ↦
      if hole_end last == s.file_end
      then record s { fl = init; file_end = last.foff; cuts = last.foff ∷ s.cuts }
      else s
]

-- the part of `fl_insert` after the search
unfoldable pub insert_at : Alloc → ℕ → ℕ → Cursor → Alloc × Bool
insert_at s foff len c = elim (merge_left foff len c.before) [
  | some before ↦ (trim_tail (record s { fl = merge_right before c.after }), true)
  | none ↦
      let (s', ok) = fl_reserve s (length s.fl + 1) in
      if ok
      then (
        trim_tail
            (record s' { fl = merge_right (record { foff = foff; len = len } ∷ c.before) c.after }),
        true,
      )
      else (s', false)
]

-- `false` is -ENOMEM
unfoldable pub fl_insert : Alloc → ℕ → ℕ → Alloc × Bool
fl_insert s foff len = if len == 0 then (s, true) else insert_at s foff len (seek foff [] s.fl)

-- the body of the scan of `ls_alloc_best`: hole `i` is taken for the best so far if it covers `need`
-- and is smaller
unfoldable pub pick_best : ℕ → ℕ → Hole → Option (ℕ × Hole) → Option (ℕ × Hole)
pick_best need i h none = if leb need h.len then some (i, h) else none
pick_best need i h (some (j, b)) =
    if leb need h.len && ltb h.len b.len then some (i, h) else some (j, b)

-- the scan, from index `i` on: the index of the best hole, and the hole
unfoldable pub scan_best : ℕ → List Hole → ℕ → Option (ℕ × Hole) → Option (ℕ × Hole)
scan_best need [] i best = best
scan_best need (h ∷ t) i best = scan_best need t (i + 1) (pick_best need i h best)

unfoldable pub remove_at : ℕ → List Hole → List Hole
remove_at i [] = []
remove_at zero (h ∷ t) = t
remove_at (suc i) (h ∷ t) = h ∷ remove_at i t

-- hole `i` gives up its first `need` bytes, and goes when that is all of it
unfoldable pub carve : ℕ → ℕ → List Hole → List Hole
carve need i [] = []
carve need zero (h ∷ t) =
    if h.len == need then t else record { foff = h.foff +₆₄ need; len = h.len -₆₄ need } ∷ t
carve need (suc i) (h ∷ t) = h ∷ carve need i t

-- `none` is a return of 0
unfoldable pub alloc_best : Alloc → ℕ → Alloc × Option Extent
alloc_best s need =
    let need' = round_up need in
    if need' == 0 then (s, none) else elim (scan_best need' s.fl 0 none) [
      | none ↦ (s, none)
      | some (i, h) ↦
          (record s { fl = carve need' i s.fl }, some (record { foff = h.foff; len = need' }))
    ]

-- the body of the scan of `ls_alloc_largest`
unfoldable pub pick_largest : ℕ → Hole → Option (ℕ × Hole) → Option (ℕ × Hole)
pick_largest i h none = some (i, h)
pick_largest i h (some (j, b)) = if ltb b.len h.len then some (i, h) else some (j, b)

unfoldable pub scan_largest : List Hole → ℕ → Option (ℕ × Hole) → Option (ℕ × Hole)
scan_largest [] i big = big
scan_largest (h ∷ t) i big = scan_largest t (i + 1) (pick_largest i h big)

unfoldable pub alloc_largest : Alloc → ℕ → Alloc × Option Extent
alloc_largest s least = elim (scan_largest s.fl 0 none) [
  | none ↦ (s, none)
  | some (i, h) ↦
      if leb (round_up least) h.len then (record s { fl = remove_at i s.fl }, some h) else (s, none)
]

unfoldable pub alloc_tail : Alloc → ℕ → Alloc × Extent
alloc_tail s need =
    let need' = round_up need in
    (record s { file_end = s.file_end +₆₄ need' }, record { foff = s.file_end; len = need' })

unfoldable pub free_all : Alloc → List Extent → Alloc
free_all s [] = s
free_all s (e ∷ es) = free_all (fl_insert s e.foff e.len).0 es

-- the result of `fl_insert` is dropped: an extent that finds no memory is lost to the free list
unfoldable pub free_extents : Alloc → List Extent → Alloc
free_extents s es = if s.teardown then s else free_all s es

unfoldable pub hole_bytes : List Hole → ℕ → ℕ
hole_bytes [] sum = sum
hole_bytes (h ∷ t) sum = hole_bytes t (sum +₆₄ h.len)

unfoldable pub alloc_live : Alloc → ℕ
alloc_live s = s.file_end -₆₄ super_size -₆₄ hole_bytes s.fl 0
