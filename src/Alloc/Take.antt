-- ===== src/Alloc/Take.antt =====
-- `ls_alloc_best`, `ls_alloc_largest` and `ls_alloc_tail` of src/alloc.c: what each hands out, and
-- what it leaves free.
use libspill.Base.{
  ℕ, zero, suc, ◌+◌, ◌-◌, ◌%◌, ◌^◌, ◌≤◌, ◌<◌, ◌≡◌, refl, ◌⊎◌, inl, inr, ◌&&◌, Option, none, some,
  List, [], ◌∷◌, arith, ltb, leb, Bool-cases, ◌+₆₄◌, +₆₄-eq, get_elem?, sym, ◌∙◌,
}
use libspill.Alloc.{Hole, round_up, scan_best, pick_best, scan_largest, pick_largest}
use libspill.Alloc.Shape.{IsCoalesced, IsCoalesced-lt}

-- Rounding up to the alignment, as long as it does not wrap around.
pub round_up-bounds :
    (n : ℕ)
    → n ≤ 2 ^ 64 - 4096
    → (n ≤ round_up n) × (round_up n < n + 4096) × (round_up n % 4096 ≡ 0)
unfolding round_up
round_up-bounds n h = rw (+₆₄-eq n 4095 (omega arith)) (omega arith)

-- Past the last multiple of the alignment the sum wraps, and the rounded size is 0.
pub round_up_wraps : (n : ℕ) → 2 ^ 64 - 4096 < n → n < 2 ^ 64 → round_up n ≡ 0
unfolding round_up ◌+₆₄◌
round_up_wraps n l h = omega arith

-- A scan of the list from index `i` on ends at a hole of it, or at the one it started with.
pub data Found (fl : List Hole) (i : ℕ) (start : Option (ℕ × Hole)) (j : ℕ) (h : Hole)
    : Type 0 where
  here : (k : ℕ) → j ≡ i + k → get_elem? fl k ≡ some h → Found fl i start j h
  kept : start ≡ some (j, h) → Found fl i start j h

Found-step :
    (g : Hole) (fl : List Hole) (i j : ℕ) (h : Hole) (start start' : Option (ℕ × Hole))
    → (start' ≡ some (i, g)) ⊎ (start' ≡ start)
    → Found fl (i + 1) start' j h
    → Found (g ∷ fl) i start j h
Found-step g fl i j h start start' c (here k e q) = here (suc k) (omega arith) q
Found-step g fl i j h start start' (inl n) (kept e) = here zero (ground arith) (ground arith)
Found-step g fl i j h start start' (inr n) (kept e) = kept (sym n ∙ e)

-- Every hole of the list that covers `need` is at least as long as `len`.
abbrev pub NoBetter : ℕ → ℕ → List Hole → Type 0
NoBetter need len [] = Unit {0}
NoBetter need len (h ∷ t) = (need ≤ h.len → len ≤ h.len) × NoBetter need len t

-- No hole of the list covers `need`.
abbrev pub NoneCovers : ℕ → List Hole → Type 0
NoneCovers need [] = Unit {0}
NoneCovers need (h ∷ t) = (h.len < need) × NoneCovers need t

abbrev pub AtMost : ℕ → Option (ℕ × Hole) → Type 0
AtMost len none = Unit {0}
AtMost len (some (j, b)) = len ≤ b.len

abbrev pub Covers : ℕ → Option (ℕ × Hole) → Type 0
Covers need none = Unit {0}
Covers need (some (j, b)) = need ≤ b.len

pick_best-lem :
    (need i : ℕ) (g : Hole) (best : Option (ℕ × Hole))
    → Covers need best
    → ((pick_best need i g best ≡ some (i, g)) ⊎ (pick_best need i g best ≡ best))
      × Covers need (pick_best need i g best)
      × ((len : ℕ)
          → AtMost len (pick_best need i g best)
          → (need ≤ g.len → len ≤ g.len) × AtMost len best)
unfolding pick_best
pick_best-lem need i g none c = elim (Bool-cases (leb need g.len)) [
  | inl fits ↦ rw fits (inl refl, ground arith, λ len a. (λ n. a, tt))
  | inr short ↦ rw short (inr refl, tt, λ len a. (λ n. absurd (ground arith), tt))
]
pick_best-lem need i g (some (k, b)) c = elim (Bool-cases (leb need g.len && ltb g.len b.len)) [
  | inl fits ↦ rw fits (inl refl, ground arith, λ len a. (λ n. a, ground arith))
  | inr short ↦ rw short (inr refl, c, λ len a. (λ n. ground arith, a))
]

pub record IsBest (need i : ℕ) (fl : List Hole) (best : Option (ℕ × Hole)) (j : ℕ) (h : Hole)
    : Type 0 where
  pub found : Found fl i best j h
  pub fits : need ≤ h.len
  pub least : NoBetter need h.len fl
  pub at_most : AtMost h.len best

pub scan_best-some :
    (need : ℕ) (fl : List Hole) (i : ℕ) (best : Option (ℕ × Hole)) (j : ℕ) (h : Hole)
    → Covers need best
    → scan_best need fl i best ≡ some (j, h)
    → IsBest need i fl best j h
unfolding scan_best
scan_best-some need [] i none j h c e = cc
scan_best-some need [] i (some (k, b)) j h c e = record {
  found = kept e;
  fits = ground arith;
  least = tt;
  at_most = ground arith;
}
scan_best-some need (g ∷ t) i best j h c e =
    let (choice, c', at) = pick_best-lem need i g best c in
    let r = scan_best-some need t (i + 1) (pick_best need i g best) j h c' e in
    record {
      found = Found-step g t i j h best _ choice r.found;
      fits = r.fits;
      least = ((at h.len r.at_most).0, r.least);
      at_most = (at h.len r.at_most).1;
    }

pub scan_best-none :
    (need : ℕ) (fl : List Hole) (i : ℕ) (best : Option (ℕ × Hole))
    → scan_best need fl i best ≡ none
    → (best ≡ none) × NoneCovers need fl
unfolding scan_best pick_best
scan_best-none need [] i best e = (e, tt)
scan_best-none need (g ∷ t) i none e =
    let r = scan_best-none need t (i + 1) (pick_best need i g none) e in ground arith
scan_best-none need (g ∷ t) i (some (k, b)) e =
    let r = scan_best-none need t (i + 1) (pick_best need i g (some (k, b))) e in ground arith

-- No hole of the list is longer than `len`.
abbrev pub NoLonger : ℕ → List Hole → Type 0
NoLonger len [] = Unit {0}
NoLonger len (h ∷ t) = (h.len ≤ len) × NoLonger len t

abbrev pub AtLeast : ℕ → Option (ℕ × Hole) → Type 0
AtLeast len none = Unit {0}
AtLeast len (some (j, b)) = b.len ≤ len

pick_largest-lem :
    (i : ℕ) (g : Hole) (big : Option (ℕ × Hole))
    → ((pick_largest i g big ≡ some (i, g)) ⊎ (pick_largest i g big ≡ big))
      × ((len : ℕ) → AtLeast len (pick_largest i g big) → (g.len ≤ len) × AtLeast len big)
unfolding pick_largest
pick_largest-lem i g none = (inl refl, λ len a. (a, tt))
pick_largest-lem i g (some (k, b)) = elim (Bool-cases (ltb b.len g.len)) [
  | inl more ↦ rw more (inl refl, λ len a. (a, ground arith))
  | inr less ↦ rw less (inr refl, λ len a. (ground arith, a))
]

pub scan_largest-some :
    (fl : List Hole) (i : ℕ) (big : Option (ℕ × Hole)) (j : ℕ) (h : Hole)
    → scan_largest fl i big ≡ some (j, h)
    → Found fl i big j h × NoLonger h.len fl × AtLeast h.len big
unfolding scan_largest
scan_largest-some [] i none j h e = cc
scan_largest-some [] i (some (k, b)) j h e = (kept e, tt, ground arith)
scan_largest-some (g ∷ t) i big j h e =
    let (choice, at) = pick_largest-lem i g big in
    let r = scan_largest-some t (i + 1) (pick_largest i g big) j h e in
    (Found-step g t i j h big _ choice r.0, ((at h.len r.2).0, r.1), (at h.len r.2).1)

pub Found-none : (fl : List Hole) (j : ℕ) (h : Hole) → Found fl 0 none j h → get_elem? fl j ≡ some h
Found-none fl j h (here k e q) = let e' : j ≡ k = omega (arith, e) in rw e' q
Found-none fl j h (kept e) = cc

-- What a hole at index `i` of a sorted list says of its place.
pub get_elem?-bounds :
    (lo : ℕ) (fl : List Hole) (hi i : ℕ) (h : Hole)
    → IsCoalesced lo fl hi
    → get_elem? fl i ≡ some h
    → (lo < h.foff) × (0 < h.len) × (h.foff + h.len < hi)
get_elem?-bounds lo [] hi i h w e = cc
get_elem?-bounds lo (g ∷ t) hi zero h w e = ground (arith, IsCoalesced-lt (g.foff + g.len) t hi w.2)
get_elem?-bounds lo (g ∷ t) hi (suc i) h w e =
    omega (arith, get_elem?-bounds (g.foff + g.len) t hi i h w.2 e)

pub scan_largest-none :
    (fl : List Hole) (i : ℕ) (big : Option (ℕ × Hole))
    → scan_largest fl i big ≡ none
    → (big ≡ none) × (fl ≡ [])
unfolding scan_largest pick_largest
scan_largest-none [] i big e = (e, refl)
scan_largest-none (g ∷ t) i none e =
    let r = scan_largest-none t (i + 1) (pick_largest i g none) e in cc
scan_largest-none (g ∷ t) i (some (k, b)) e =
    let r = scan_largest-none t (i + 1) (pick_largest i g (some (k, b))) e in ground arith

pub NoLonger-NoneCovers :
    (len need : ℕ) (fl : List Hole) → len < need → NoLonger len fl → NoneCovers need fl
NoLonger-NoneCovers len need [] l w = tt
NoLonger-NoneCovers len need (h ∷ t) l w = (omega arith, NoLonger-NoneCovers len need t l w.1)
