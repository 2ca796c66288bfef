-- ===== src/Tests/Rebuild.antt =====
-- `rebuild_free_list` of src/open.c on two records' extents, with an insertion sort for `qsort`.
use libspill.Base.{refl, ◌≢◌, inl, inr, false, List, [], ◌∷◌, arith, ltb, if◌then◌else◌, Bool-cases}
use mathlib.Core.List.{Permᴰ}
use mathlib.Core.List.Permᴰ
use libspill.Alloc.{Extent, Alloc}
use libspill.Toc.{Rec, fresh_rec}
use libspill.FreeList.{IsSort, InOrder, rebuild_free_list, cmp_ext, greater}
use libspill.FreeList.Gaps.{Reopened}
use libspill.Toc.Grow.{flat}
use libspill.FreeList.Rebuild.{extents_of, Rebuilds, rebuild_free_list-Rebuilds}

unfoldable insert : Extent → List Extent → List Extent
insert e [] = e ∷ []
insert e (f ∷ fs) = let rest = insert e fs in if ltb f.foff e.foff then f ∷ rest else e ∷ f ∷ fs

unfoldable insertion_sort : List Extent → List Extent
insertion_sort [] = []
insertion_sort (e ∷ es) = insert e (insertion_sort es)

insert-Perm : (e : Extent) (fs : List Extent) → Permᴰ (insert e fs) (e ∷ fs)
unfolding insert
insert-Perm e [] = Permᴰ.refl (e ∷ [])
insert-Perm e (f ∷ fs) = elim (Bool-cases (ltb f.foff e.foff)) [
  | inl later ↦ rw later (Permᴰ.trans (Permᴰ.cons refl (insert-Perm e fs)) (Permᴰ.swap refl refl))
  | inr here ↦ rw here (Permᴰ.refl (e ∷ f ∷ fs))
]

insertion_sort-Perm : (es : List Extent) → Permᴰ (insertion_sort es) es
unfolding insertion_sort
insertion_sort-Perm [] = Permᴰ.nil
insertion_sort-Perm (e ∷ es) =
    Permᴰ.trans (insert-Perm e (insertion_sort es)) (Permᴰ.cons refl (insertion_sort-Perm es))

abbrev Leads : Extent → List Extent → Type 0
Leads e [] = Unit {0}
Leads e (f ∷ fs) = cmp_ext e f ≢ greater

Leads-InOrder : (e : Extent) (fs : List Extent) → Leads e fs → InOrder fs → InOrder (e ∷ fs)
Leads-InOrder e [] l o = tt
Leads-InOrder e (f ∷ fs) l o = (l, o)

tail-InOrder : (e : Extent) (fs : List Extent) → InOrder (e ∷ fs) → Leads e fs × InOrder fs
tail-InOrder e [] o = (tt, tt)
tail-InOrder e (f ∷ fs) o = o

insert-Leads :
    (g e : Extent) (fs : List Extent) → cmp_ext g e ≢ greater → Leads g fs → Leads g (insert e fs)
unfolding insert
insert-Leads g e [] n l = n
insert-Leads g e (f ∷ fs) n l = elim (Bool-cases (ltb f.foff e.foff)) [
  | inl later ↦ rw later l
  | inr here ↦ rw here n
]

insert-InOrder : (e : Extent) (fs : List Extent) → InOrder fs → InOrder (insert e fs)
unfolding insert
insert-InOrder e [] o = tt
insert-InOrder e (f ∷ fs) o =
    let (l, o') = tail-InOrder f fs o in
    elim (Bool-cases (ltb f.foff e.foff)) [
      | inl later ↦
          let n : cmp_ext f e ≢ greater = unfold cmp_ext in ground (arith, later) in
          rw later
            (Leads-InOrder f (insert e fs) (insert-Leads f e fs n l) (insert-InOrder e fs o'))
      | inr here ↦
          let n : cmp_ext e f ≢ greater = unfold cmp_ext in ground (arith, here) in rw here (n, o)
    ]

insertion_sort-InOrder : (es : List Extent) → InOrder (insertion_sort es)
unfolding insertion_sort
insertion_sort-InOrder [] = tt
insertion_sort-InOrder (e ∷ es) = insert-InOrder e (insertion_sort es) (insertion_sort-InOrder es)

insertion_sort-IsSort : IsSort insertion_sort
insertion_sort-IsSort = record { permutes = insertion_sort-Perm; sorts = insertion_sort-InOrder }

-- a store of ten pages, as `ls_open` has it before the rebuild
abbrev reopened : Alloc
reopened = record { fl = []; flcap = 0; file_end = 40960; teardown = false; grants = []; cuts = [] }

reopened-Reopened : Reopened 40960 reopened
reopened-Reopened = record {
  no_holes = refl;
  end = refl;
  live = refl;
  memory = refl;
  room = omega arith;
  word = omega arith;
}

abbrev two_recs : List (List Rec)
two_recs =
    (record (fresh_rec (97 ∷ [])) { ext = record { foff = 16384; len = 4096 } ∷ [] } ∷ [])
    ∷ []
    ∷ (record (fresh_rec (98 ∷ [])) { ext = record { foff = 8192; len = 4096 } ∷ [] } ∷ [])
    ∷ []

rebuild_free_list-Rebuilds_example :
    Rebuilds 40960 (extents_of (flat two_recs)) (rebuild_free_list insertion_sort reopened two_recs)
unfolding flat
rebuild_free_list-Rebuilds_example =
    rebuild_free_list-Rebuilds insertion_sort 40960 reopened two_recs insertion_sort-IsSort
      reopened-Reopened (omega arith, omega arith, (omega arith, omega arith, tt))
      (omega arith, (omega arith, tt))
