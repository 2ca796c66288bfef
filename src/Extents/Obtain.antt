-- ===== src/Extents/Obtain.antt =====
-- How the growing of a record's extent list finds space.
use libspill.Base.{
  ℕ, ◌+◌, ◌^◌, ◌≤◌, ◌<◌, ◌≡◌, refl, ◌⊎◌, inl, inr, Option, none, some, arith, leb, ◌==◌, Bool-cases,
  Option-cases,
}
use libspill.Alloc.{
  Extent, Alloc, round_up, alloc_best, alloc_largest, alloc_tail, scan_best, scan_largest,
}
use libspill.Alloc.Insert.{IsSound}
use libspill.Alloc.Take.{round_up-bounds, get_elem?-bounds}
use libspill.Alloc.Handout.{
  Takes, BestFit, taken, nothing, LargestFit, whole, too_small, alloc_best-BestFit,
  alloc_largest-LargestFit, alloc_tail-Takes,
}
use libspill.Extents.{obtain, or_tail, or_largest, least_worth, max_extents}

alloc_best-teardown : (s : Alloc) (need : ℕ) → (alloc_best s need).0.teardown ≡ s.teardown
unfolding alloc_best
alloc_best-teardown s need = elim (Bool-cases (round_up need == 0)) [
  | inl z ↦ rw z refl
  | inr z ↦ elim (Option-cases (scan_best (round_up need) s.fl 0 none)) [
    | inl e ↦ rw (e, alloc_best, z) refl
    | inr ((i, h), e) ↦ rw (e, alloc_best, z) refl
  ]
]

alloc_largest-teardown : (s : Alloc) (least : ℕ) → (alloc_largest s least).0.teardown ≡ s.teardown
unfolding alloc_largest
alloc_largest-teardown s least = elim (Option-cases (scan_largest s.fl 0 none)) [
  | inl e ↦ rw (e, alloc_largest) refl
  | inr ((i, h), e) ↦ rw (e, alloc_largest) (ground arith)
]

-- Space taken for a deficit: all of it in one extent, or a part while there is room for another one.
pub record Obtains (a : Alloc) (next deficit : ℕ) (a' : Alloc) (e : Extent) : Type 0 where
  pub takes : Takes a e a'
  pub live : a'.teardown ≡ a.teardown
  pub enough : (deficit ≤ e.len) ⊎ (next + 1 < max_extents) × (a'.file_end ≡ a.file_end)
  pub size : (e.len ≤ a.file_end) ⊎ (e.len ≡ round_up deficit)
  pub spent : a'.file_end ≤ a.file_end + (deficit + 4096)

tail-Obtains :
    (a : Alloc) (next deficit : ℕ)
    → IsSound a
    → 0 < deficit
    → deficit ≤ 2 ^ 62
    → a.file_end ≤ 2 ^ 62
    → Obtains a next deficit (alloc_tail a deficit).0 (alloc_tail a deficit).1
tail-Obtains a next deficit v p l b =
    let r = round_up-bounds deficit (omega arith) in
    let t = alloc_tail-Takes a deficit v (omega arith) (omega arith) in
    record {
      takes = t.0;
      live = unfold alloc_tail in refl;
      enough = inl (omega arith);
      size = inr t.1;
      spent = omega (arith, t.2, r);
    }

or_tail-Obtains :
    (a : Alloc) (next deficit least : ℕ) (r : Alloc × Option Extent)
    → IsSound a
    → 0 < deficit
    → deficit ≤ 2 ^ 62
    → a.file_end ≤ 2 ^ 62
    → next + 1 < max_extents
    → LargestFit a least r
    → r.0.teardown ≡ a.teardown
    → Obtains a next deficit (or_tail deficit r).0 (or_tail deficit r).1
or_tail-Obtains a next deficit least (a1, some e1) v p l b n (whole e i f w t end at long) live =
    let same : e1 ≡ e = cc in
    let o = get_elem?-bounds _ a.fl a.file_end i e v.sorted at in
    rw same (record {
      takes = t;
      live = live;
      enough = inr (n, end);
      size = inl (omega (arith, o));
      spent = omega (arith, end);
    })
or_tail-Obtains a next deficit least (a1, none) v p l b n (whole e i f w t end at long) live =
    absurd cc
or_tail-Obtains a next deficit least (a1, some e1) v p l b n (too_small f same c) live = absurd cc
or_tail-Obtains a next deficit least (a1, none) v p l b n (too_small f same c) live =
    rw same (tail-Obtains a next deficit v p l b)

or_largest-Obtains :
    (a : Alloc) (next deficit : ℕ) (r : Alloc × Option Extent)
    → IsSound a
    → 0 < deficit
    → deficit ≤ 2 ^ 62
    → a.file_end ≤ 2 ^ 62
    → BestFit a deficit r
    → r.0.teardown ≡ a.teardown
    → Obtains a next deficit (or_largest next deficit r).0 (or_largest next deficit r).1
unfolding or_largest
or_largest-Obtains a next deficit (a1, some e1) v p l b (taken e f len t end h i at foff best)
      live =
    let same : e1 ≡ e = cc in
    let r = round_up-bounds deficit (omega arith) in
    rw same (record {
      takes = t;
      live = live;
      enough = inl (omega (arith, len, r));
      size = inr len;
      spent = omega (arith, end);
    })
or_largest-Obtains a next deficit (a1, none) v p l b (taken e f len t end h i at foff best) live =
    absurd cc
or_largest-Obtains a next deficit (a1, some e1) v p l b (nothing f same c) live = absurd cc
or_largest-Obtains a next deficit (a1, none) v p l b (nothing f same c) live =
    elim (Bool-cases (leb max_extents (next + 1))) [
      | inl long ↦ rw (long, same) (tail-Obtains a next deficit v p l b)
      | inr short ↦
          rw (short, same)
            (or_tail-Obtains a next deficit (least_worth deficit)
              (alloc_largest a (least_worth deficit)) v p l b (ground (arith, short))
              (alloc_largest-LargestFit a (least_worth deficit) v)
              (alloc_largest-teardown a (least_worth deficit)))
    ]

pub obtain-Obtains :
    (a : Alloc) (next deficit : ℕ)
    → IsSound a
    → 0 < deficit
    → deficit ≤ 2 ^ 62
    → a.file_end ≤ 2 ^ 62
    → Obtains a next deficit (obtain a next deficit).0 (obtain a next deficit).1
unfolding obtain
obtain-Obtains a next deficit v p l b =
    or_largest-Obtains a next deficit (alloc_best a deficit) v p l b
      (alloc_best-BestFit a deficit v) (alloc_best-teardown a deficit)
