-- ===== src/Extents.antt =====
-- src/store.c, the growing of a record's extent list: `ext_retire`, `ext_push`, `ensure_extents`.
-- `Space` is the part of `ls_store` that they touch, with the file behind the descriptor; `buffers`
-- says for each coming call of `zero_range` whether its buffer can be allocated. `cut_errors` are the
-- calls of `ls_report` for a truncation that failed, latest first: the new end of the file and the
-- errno.
pub mod Obtain
pub mod Push
pub mod Grows
pub mod Holding
use libspill.Base.{
  ℕ, zero, suc, ◌+◌, ◌-◌, ◌*◌, ◌^◌, Bool, true, false, Option, none, some, List, [], ◌∷◌, ◌++◌, leb,
  ltb, if◌then◌else◌, ◌==◌, length, ◌+₆₄◌,
}
use libspill.Alloc.{
  Extent, Alloc, granted, later_grants, alloc_best, alloc_largest, alloc_tail, free_extents,
}
use libspill.Toc.{Rec}
use libspill.TocFile.{next_cap}
use libspill.Status.{Status, done, no_memory}
use libspill.Os.{Os, Done, success}
use libspill.Zero.{zero_range}

abbrev pub min_extent : ℕ
min_extent = 65536

abbrev pub max_extents : ℕ
max_extents = 8

-- Space for `deficit` bytes: a hole that covers them, else the largest hole worth having, while the
-- extent list is short, else the end of the file.
abbrev pub or_tail : ℕ → Alloc × Option Extent → Alloc × Extent
or_tail deficit (a, some e) = (a, e)
or_tail deficit (a, none) = alloc_tail a deficit

abbrev pub least_worth : ℕ → ℕ
least_worth deficit = if ltb min_extent deficit then min_extent else deficit

unfoldable pub or_largest : ℕ → ℕ → Alloc × Option Extent → Alloc × Extent
or_largest next deficit (a, some e) = (a, e)
or_largest next deficit (a, none) =
    if leb max_extents (next + 1)
    then alloc_tail a deficit
    else or_tail deficit (alloc_largest a (least_worth deficit))

unfoldable pub obtain : Alloc → ℕ → ℕ → Alloc × Extent
unfolding or_largest
obtain a next deficit = or_largest next deficit (alloc_best a deficit)

module _ (os : Os) where
  pub record Space : Type 0 where
    pub file : os.File
    pub alloc : Alloc
    pub retired : List (List Extent)
    pub retcap : ℕ
    pub buffers : List Bool
    pub cut_errors : List (ℕ × ℕ)

  -- one request for memory is answered
  abbrev pub asked : Space → Space
  asked s = record s { alloc = record s.alloc { grants = later_grants s.alloc.grants } }

  -- `none` is a null array; `false` is -ENOMEM
  unfoldable pub ext_retire : Space → Option (List Extent) → Space × Bool
  ext_retire s none = (s, true)
  ext_retire s (some old) =
      let kept = s.retired ++ old ∷ [] in
      if length s.retired == s.retcap
      then (if granted s.alloc.grants
          then (
            record (asked s) { retired = kept; retcap = if s.retcap == 0 then 8 else s.retcap * 2 },
            true,
          )
          else (asked s, false))
      else (record s { retired = kept }, true)

  abbrev pub array_of : Rec → Option (List Extent)
  array_of r = if r.ncap == 0 then none else some r.ext

  unfoldable pub ext_push : Space → Rec → Extent → Space × Rec × Bool
  unfolding ext_retire
  ext_push s r e =
      let ext = r.ext ++ e ∷ [] in
      if length r.ext == r.ncap
      then (if granted s.alloc.grants
          then (let (s', ok) = ext_retire (asked s) (array_of r) in
              if ok
              then (s', record r { ext = ext; ncap = next_cap r.ncap }, true)
              else (s', r, false))
          else (asked s, r, false))
      else (s, record r { ext = ext }, true)

  abbrev pub after_cut : ℕ → List (ℕ × ℕ) → os.File × Done → os.File × List (ℕ × ℕ)
  after_cut n errors (f, success) = (f, errors)
  after_cut n errors (f, Done.failed e) = (f, (n, e) ∷ errors)

  -- The file after the truncations, which come latest first, and the failures to report.
  unfoldable pub cut_file : List ℕ → os.File → List (ℕ × ℕ) → os.File × List (ℕ × ℕ)
  cut_file [] f errors = (f, errors)
  cut_file (n ∷ older) f errors =
      let (g, told) = cut_file older f errors in after_cut n told (os.ftruncate g n)

  -- The allocator has run, and the truncations that it made reach the file.
  unfoldable pub settle : Space → Alloc → Space
  unfolding cut_file
  settle s a =
      let cut = cut_file a.cuts s.file s.cut_errors in
      record s { file = cut.0; alloc = record a { cuts = [] }; cut_errors = cut.1 }

  -- `ls_free_extents` on the store
  unfoldable pub give_all_back : Space → List Extent → Space
  unfolding settle
  give_all_back s es = settle s (free_extents (record s.alloc { cuts = [] }) es)

  abbrev pub give_back : Space → Extent → Space
  give_back s e = give_all_back s (e ∷ [])

  -- the end of a round, by the outcome of `ext_push`
  abbrev pub after_push : Extent → Space × Rec × Bool → Space × Rec × Option Status
  after_push e (s, r, true) = (s, record r { ext_total = r.ext_total +₆₄ e.len }, some done)
  after_push e (s, r, false) = (give_back s e, r, some no_memory)

  -- the same, by the outcome of `zero_range`
  unfoldable pub after_zero :
      Space → Rec → Extent → os.File × Option Status → Space × Rec × Option Status
  unfolding ext_push
  after_zero s r e (f, none) = (record s { file = f }, r, none)
  after_zero s r e (f, some done) = after_push e (ext_push (record s { file = f }) r e)
  after_zero s r e (f, some st) = (give_back (record s { file = f }) e, r, some st)

  -- one round of the loop
  unfoldable pub add_space : Space → Rec → ℕ → Space × Rec × Option Status
  unfolding obtain after_zero
  add_space s r need =
      let (a, e) = obtain s.alloc (length r.ext) (need - r.ext_total) in
      after_zero (record s { alloc = a; buffers = later_grants s.buffers }) r e
        (zero_range os (granted s.buffers) s.file e.foff e.len)

  abbrev pub and_loop :
      (Space → Rec → Space × Rec × Option Status)
      → Space × Rec × Option Status
      → Space × Rec × Option Status
  and_loop loop (s, r, some done) = loop s r
  and_loop loop (s, r, some st) = (s, r, some st)
  and_loop loop (s, r, none) = (s, r, none)

  -- `none` means that the fuel ran out
  unfoldable pub ensure_loop : ℕ → ℕ → Space → Rec → Space × Rec × Option Status
  unfolding add_space
  ensure_loop need zero s r = if ltb r.ext_total need then (s, r, none) else (s, r, some done)
  ensure_loop need (suc fuel) s r =
      let rest = and_loop (ensure_loop need fuel) (add_space s r need) in
      if ltb r.ext_total need then rest else (s, r, some done)

  unfoldable pub ensure_extents : ℕ → Space → Rec → Space × Rec × Option Status
  unfolding ensure_loop
  ensure_extents need s r = ensure_loop need max_extents s r
