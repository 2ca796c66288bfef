-- ===== src/Alloc/Shape.antt =====
-- The free list of src/alloc.c as an ordered list of holes with a gap before each, and the set of
-- bytes that it covers. `Gap` and `Before` read the part of the array left of a cursor.
use libspill.Base.{
  ℕ, suc, ◌+◌, ◌≤◌, ◌<◌, ◌≡◌, refl, ◌⊎◌, inl, inr, Bool, false, ◌||◌, ◌&&◌, List, [], ◌∷◌, arith,
  ltb, leb, Bool-cases,
}
use libspill.Alloc.{Hole, Cursor, rejoin, seek}

-- Every hole lies strictly above the end of the one before it, the first one above `lo`; the last
-- one ends strictly below `hi`. So the holes are in order, apart, not empty and fully coalesced.
abbrev pub IsCoalesced : ℕ → List Hole → ℕ → Type 0
IsCoalesced lo [] hi = lo < hi
IsCoalesced lo (h ∷ t) hi = (lo < h.foff) × (0 < h.len) × IsCoalesced (h.foff + h.len) t hi

-- the byte at offset `x` lies in `[foff, foff + len)`
abbrev pub in_range : ℕ → ℕ → ℕ → Bool
in_range foff len x = leb foff x && ltb x (foff + len)

abbrev pub in_holes : List Hole → ℕ → Bool
in_holes [] x = false
in_holes (h ∷ t) x = in_range h.foff h.len x || in_holes t x

-- A range that no hole meets.
abbrev pub Apart : List Hole → ℕ → ℕ → Type 0
Apart [] foff len = Unit {0}
Apart (h ∷ t) foff len = ((h.foff + h.len ≤ foff) ⊎ (foff + len ≤ h.foff)) × Apart t foff len

-- The holes left of a cursor, nearest first, all end strictly below `x`.
abbrev pub Gap : ℕ → List Hole → ℕ → Type 0
Gap lo [] x = lo < x
Gap lo (p ∷ ps) x = (p.foff + p.len < x) × (0 < p.len) × Gap lo ps p.foff

-- The same, but the nearest hole may end at `x`.
abbrev pub Before : ℕ → List Hole → ℕ → Type 0
Before lo [] x = lo < x
Before lo (p ∷ ps) x = (p.foff + p.len ≤ x) × (0 < p.len) × Gap lo ps p.foff

-- The holes right of a cursor start at `x` or later.
abbrev pub After : ℕ → List Hole → ℕ → Type 0
After x [] hi = x < hi
After x (n ∷ t) hi = (x ≤ n.foff) × (0 < n.len) × IsCoalesced (n.foff + n.len) t hi

pub IsCoalesced-lt : (lo : ℕ) (fl : List Hole) (hi : ℕ) → IsCoalesced lo fl hi → lo < hi
IsCoalesced-lt lo [] hi w = w
IsCoalesced-lt lo (h ∷ t) hi w = omega (arith, IsCoalesced-lt (h.foff + h.len) t hi w.2)

pub IsCoalesced-mono :
    (lo : ℕ) (fl : List Hole) (hi hi' : ℕ) → hi ≤ hi' → IsCoalesced lo fl hi → IsCoalesced lo fl hi'
IsCoalesced-mono lo [] hi hi' l w = omega arith
IsCoalesced-mono lo (h ∷ t) hi hi' l w =
    (w.0, w.1, IsCoalesced-mono (h.foff + h.len) t hi hi' l w.2)

pub IsCoalesced-below :
    (lo lo' : ℕ) (fl : List Hole) (hi : ℕ) → lo' ≤ lo → IsCoalesced lo fl hi → IsCoalesced lo' fl hi
IsCoalesced-below lo lo' [] hi l w = omega arith
IsCoalesced-below lo lo' (h ∷ t) hi l w = (omega arith, w.1, w.2)

-- No hole reaches below `lo`, or up to `hi`.
pub in_holes-low :
    (lo : ℕ) (fl : List Hole) (hi x : ℕ) → IsCoalesced lo fl hi → x ≤ lo → in_holes fl x ≡ false
in_holes-low lo [] hi x w l = refl
in_holes-low lo (h ∷ t) hi x w l = ground (arith, in_holes-low (h.foff + h.len) t hi x)

pub in_holes-high :
    (lo : ℕ) (fl : List Hole) (hi x : ℕ) → IsCoalesced lo fl hi → hi ≤ suc x → in_holes fl x ≡ false
in_holes-high lo [] hi x w l = refl
in_holes-high lo (h ∷ t) hi x w l =
    ground (arith, in_holes-high (h.foff + h.len) t hi x, IsCoalesced-lt (h.foff + h.len) t hi w.2)

pub rejoin-IsCoalesced :
    (lo : ℕ) (before : List Hole) (h : Hole) (t : List Hole) (hi : ℕ)
    → Gap lo before h.foff
    → 0 < h.len
    → IsCoalesced (h.foff + h.len) t hi
    → IsCoalesced lo (rejoin before (h ∷ t)) hi
unfolding rejoin
rejoin-IsCoalesced lo [] h t hi g p w = (g, p, w)
rejoin-IsCoalesced lo (b ∷ before) h t hi g p w =
    rejoin-IsCoalesced lo before b (h ∷ t) hi g.2 g.1 (g.0, p, w)

pub in_holes-rejoin :
    (before after : List Hole) (x : ℕ)
    → in_holes (rejoin before after) x ≡ in_holes before x || in_holes after x
unfolding rejoin
in_holes-rejoin [] after x = refl
in_holes-rejoin (b ∷ before) after x = ground (arith, in_holes-rejoin before (b ∷ after) x)

-- Where the search stops, for a range apart from every hole.
pub record IsCursor (lo foff len hi : ℕ) (c : Cursor) : Type 0 where
  pub left : Before lo c.before foff
  pub right : After (foff + len) c.after hi

-- the end of the nearest hole on the left
abbrev top : ℕ → List Hole → ℕ
top lo [] = lo
top lo (p ∷ ps) = p.foff + p.len

abbrev Under : ℕ → List Hole → Type 0
Under lo [] = Unit {0}
Under lo (p ∷ ps) = (0 < p.len) × Gap lo ps p.foff

Gap-top :
    (lo : ℕ) (before : List Hole) (x : ℕ) → Under lo before → top lo before < x → Gap lo before x
Gap-top lo [] x u l = l
Gap-top lo (p ∷ ps) x u l = (l, u.0, u.1)

Before-Under :
    (lo : ℕ) (before : List Hole) (x : ℕ)
    → lo < x
    → Under lo before
    → top lo before ≤ x
    → Before lo before x
Before-Under lo [] x b u l = b
Before-Under lo (p ∷ ps) x b u l = (l, u.0, u.1)

seek-from :
    (lo foff len hi : ℕ) (before after : List Hole)
    → lo < foff
    → 0 < len
    → foff + len < hi
    → Under lo before
    → top lo before ≤ foff
    → IsCoalesced (top lo before) after hi
    → Apart after foff len
    → IsCursor lo foff len hi (seek foff before after)
unfolding seek
seek-from lo foff len hi before [] b p e u l w d = record {
  left = Before-Under lo before foff b u l;
  right = e;
}
seek-from lo foff len hi before (h ∷ t) b p e u l w d = elim (Bool-cases (ltb h.foff foff)) [
  | inl go ↦ rw go (
      seek-from lo foff len hi (h ∷ before) t b p e (w.1, Gap-top lo before h.foff u w.0)
        (ground arith) w.2 d.1)
  | inr stop ↦
      rw stop
        (record { left = Before-Under lo before foff b u l; right = (ground arith, w.1, w.2) })
]

pub seek-IsCursor :
    (lo foff len hi : ℕ) (fl : List Hole)
    → lo < foff
    → 0 < len
    → foff + len < hi
    → IsCoalesced lo fl hi
    → Apart fl foff len
    → IsCursor lo foff len hi (seek foff [] fl)
seek-IsCursor lo foff len hi fl b p e w d =
    seek-from lo foff len hi [] fl b p e tt (omega arith) w d

-- The search moves holes across the cursor and loses none.
pub seek-rejoin :
    (foff : ℕ) (before after : List Hole)
    → rejoin (seek foff before after).before (seek foff before after).after ≡ rejoin before after
unfolding seek rejoin
seek-rejoin foff before [] = refl
seek-rejoin foff before (h ∷ t) = elim (Bool-cases (ltb h.foff foff)) [
  | inl go ↦ rw go (seek-rejoin foff (h ∷ before) t)
  | inr stop ↦ rw stop refl
]
