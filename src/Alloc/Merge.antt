-- ===== src/Alloc/Merge.antt =====
-- The merge with the next hole and the last hole of the list, in `fl_insert` of src/alloc.c.
use libspill.Base.{
  ℕ, ◌+◌, ◌^◌, ◌≤◌, ◌<◌, ◌≡◌, refl, inl, inr, ◌||◌, none, some, List, [], ◌∷◌, ◌++◌, arith, ◌==◌,
  Bool-cases, Option-cases, ◌+₆₄◌, +₆₄-eq, ◌∙◌,
}
use libspill.Alloc.{Hole, rejoin, hole_end, merge_right, split_last}
use libspill.Alloc.Shape.{
  IsCoalesced, in_range, in_holes, Gap, After, rejoin-IsCoalesced, in_holes-rejoin, IsCoalesced-lt,
}

pub hole_end-eq : (h : Hole) → h.foff + h.len < 2 ^ 64 → hole_end h ≡ h.foff + h.len
unfolding hole_end
hole_end-eq h l = +₆₄-eq h.foff h.len l

-- The merge with the hole on the right.
pub merge_right-IsCoalesced :
    (lo : ℕ) (before : List Hole) (h : Hole) (after : List Hole) (hi : ℕ)
    → hi ≤ 2 ^ 64
    → Gap lo before h.foff
    → 0 < h.len
    → After (h.foff + h.len) after hi
    → IsCoalesced lo (merge_right (h ∷ before) after) hi
unfolding merge_right rejoin
merge_right-IsCoalesced lo before h [] hi b g p w = rejoin-IsCoalesced lo before h [] hi g p w
merge_right-IsCoalesced lo before h (n ∷ t) hi b g p w =
    let below = IsCoalesced-lt (n.foff + n.len) t hi w.2 in
    elim (Bool-cases (hole_end h == n.foff)) [
      | inl meet ↦
          let end : h.foff + (h.len +₆₄ n.len) ≡ n.foff + n.len =
            ground (arith, hole_end-eq h, +₆₄-eq h.len n.len) in
          rw meet (
            rejoin-IsCoalesced lo before (record h { len = h.len +₆₄ n.len }) t hi g
              (ground (arith, +₆₄-eq h.len n.len)) (rw end w.2))
      | inr apart ↦
          rw apart (
            rejoin-IsCoalesced lo before h (n ∷ t) hi g p (ground (arith, hole_end-eq h), w.1, w.2))
    ]

pub in_holes-merge_right :
    (lo : ℕ) (before : List Hole) (h : Hole) (after : List Hole) (hi x : ℕ)
    → hi ≤ 2 ^ 64
    → 0 < h.len
    → After (h.foff + h.len) after hi
    → in_holes (merge_right (h ∷ before) after) x
      ≡ in_holes before x || (in_range h.foff h.len x || in_holes after x)
unfolding merge_right rejoin
in_holes-merge_right lo before h [] hi x b p w = in_holes-rejoin (h ∷ before) [] x ∙ ground arith
in_holes-merge_right lo before h (n ∷ t) hi x b p w =
    let below = IsCoalesced-lt (n.foff + n.len) t hi w.2 in
    elim (Bool-cases (hole_end h == n.foff)) [
      | inl meet ↦ rw meet (
          in_holes-rejoin (record h { len = h.len +₆₄ n.len } ∷ before) t x
          ∙ ground (arith, hole_end-eq h, +₆₄-eq h.len n.len))
      | inr apart ↦ rw apart (in_holes-rejoin (h ∷ before) (n ∷ t) x ∙ ground arith)
    ]

-- The end of the list, for `trim_tail`.
pub split_last-none : (fl : List Hole) → split_last fl ≡ none → fl ≡ []
unfolding split_last
split_last-none [] e = refl
split_last-none (h ∷ t) e = ground arith

pub split_last-some :
    (fl init : List Hole) (last : Hole) → split_last fl ≡ some (init, last) → fl ≡ init ++ last ∷ []
unfolding split_last
split_last-some [] init last e = cc
split_last-some (h ∷ t) init last e = elim (Option-cases (split_last t)) [
  | inl n ↦ ground (arith, split_last-none t n)
  | inr ((i, l), q) ↦ ground (arith, q, split_last-some t i l q)
]

pub IsCoalesced-init :
    (lo : ℕ) (init : List Hole) (last : Hole) (hi : ℕ)
    → IsCoalesced lo (init ++ last ∷ []) hi
    → IsCoalesced lo init last.foff × (0 < last.len) × (last.foff + last.len < hi)
IsCoalesced-init lo [] last hi w = w
IsCoalesced-init lo (h ∷ t) last hi w =
    let r = IsCoalesced-init (h.foff + h.len) t last hi w.2 in ((w.0, w.1, r.0), r.1, r.2)

pub IsCoalesced-end :
    (lo : ℕ) (init : List Hole) (last : Hole) (hi hi' : ℕ)
    → IsCoalesced lo (init ++ last ∷ []) hi
    → last.foff + last.len < hi'
    → IsCoalesced lo (init ++ last ∷ []) hi'
IsCoalesced-end lo [] last hi hi' w l = (w.0, w.1, l)
IsCoalesced-end lo (h ∷ t) last hi hi' w l =
    (w.0, w.1, IsCoalesced-end (h.foff + h.len) t last hi hi' w.2 l)

pub in_holes-last :
    (init : List Hole) (last : Hole) (x : ℕ)
    → in_holes (init ++ last ∷ []) x ≡ in_holes init x || in_range last.foff last.len x
in_holes-last [] last x = ground arith
in_holes-last (h ∷ t) last x = ground (arith, in_holes-last t last x)
