-- ===== src/Alloc/Handout.antt =====
-- The three ways of src/alloc.c to hand out space, as operations on the set of free bytes: what is
-- handed out was free, and afterwards exactly those bytes are not.
use libspill.Base.{
  ℕ, zero, suc, ◌+◌, ◌-◌, ◌^◌, ◌≤◌, ◌<◌, ◌≡◌, refl, ◌⊎◌, inl, inr, true, ◌&&◌, not, Option, none,
  some, List, [], ◌∷◌, arith, leb, ◌==◌, Bool-cases, Option-cases, ◌+₆₄◌, +₆₄-eq, ◌-₆₄◌, -₆₄-eq,
  get_elem?,
}
use libspill.Alloc.{
  Hole, Extent, Alloc, super_size, round_up, scan_best, scan_largest, carve, remove_at, alloc_best,
  alloc_largest, alloc_tail,
}
use libspill.Alloc.Shape.{
  IsCoalesced, in_range, in_holes, IsCoalesced-lt, IsCoalesced-mono, IsCoalesced-below,
  in_holes-low, in_holes-high,
}
use libspill.Alloc.Insert.{IsSound, is_free}
use libspill.Alloc.Take.{
  NoBetter, NoneCovers, NoLonger, scan_best-some, scan_best-none, scan_largest-some,
  scan_largest-none, NoLonger-NoneCovers, Found-none, get_elem?-bounds,
}

remove_at-eq-carve :
    (i : ℕ) (fl : List Hole) (h : Hole)
    → get_elem? fl i ≡ some h
    → remove_at i fl ≡ carve h.len i fl
unfolding remove_at carve
remove_at-eq-carve i [] h e = cc
remove_at-eq-carve zero (g ∷ t) h e = ground arith
remove_at-eq-carve (suc i) (g ∷ t) h e = rw (remove_at-eq-carve i t h e)

carve-IsCoalesced :
    (need : ℕ) (lo : ℕ) (fl : List Hole) (hi i : ℕ) (h : Hole)
    → hi ≤ 2 ^ 64
    → IsCoalesced lo fl hi
    → get_elem? fl i ≡ some h
    → 0 < need
    → need ≤ h.len
    → IsCoalesced lo (carve need i fl) hi
unfolding carve
carve-IsCoalesced need lo [] hi i h b w e p l = cc
carve-IsCoalesced need lo (g ∷ t) hi zero h b w e p l =
    let below = IsCoalesced-lt (g.foff + g.len) t hi w.2 in
    let fits : need ≤ g.len = ground arith in
    elim (Bool-cases (g.len == need)) [
      | inl whole ↦ rw whole (IsCoalesced-below _ lo t hi (omega arith) w.2)
      | inr part ↦
          let f : g.foff +₆₄ need ≡ g.foff + need = +₆₄-eq g.foff need (omega arith) in
          let m : g.len -₆₄ need ≡ g.len - need = -₆₄-eq g.len need (omega arith) fits in
          let q : g.foff + need + (g.len - need) ≡ g.foff + g.len = omega arith in
          rw (part, f, m) (omega arith, ground arith, rw q w.2)
    ]
carve-IsCoalesced need lo (g ∷ t) hi (suc i) h b w e p l =
    (w.0, w.1, carve-IsCoalesced need (g.foff + g.len) t hi i h b w.2 e p l)

carve-in_holes :
    (need : ℕ) (lo : ℕ) (fl : List Hole) (hi i : ℕ) (h : Hole) (x : ℕ)
    → hi ≤ 2 ^ 64
    → IsCoalesced lo fl hi
    → get_elem? fl i ≡ some h
    → 0 < need
    → need ≤ h.len
    → (in_holes (carve need i fl) x ≡ in_holes fl x && not (in_range h.foff need x))
      × (in_range h.foff need x ≡ true → in_holes fl x ≡ true)
unfolding carve
carve-in_holes need lo [] hi i h x b w e p l = cc
carve-in_holes need lo (g ∷ t) hi zero h x b w e p l =
    let below = IsCoalesced-lt (g.foff + g.len) t hi w.2 in
    let same : g ≡ h = ground arith in
    let f : g.foff +₆₄ need ≡ g.foff + need = +₆₄-eq g.foff need (ground arith) in
    let m : g.len -₆₄ need ≡ g.len - need = -₆₄-eq g.len need (omega arith) (ground arith) in
    let gone = in_holes-low (g.foff + g.len) t hi x w.2 in
    rw (← same) (elim (Bool-cases (g.len == need)) [
      | inl whole ↦ rw whole (ground (arith, gone), ground arith)
      | inr part ↦ rw (part, f, m) (ground (arith, gone), ground arith)
    ])
carve-in_holes need lo (g ∷ t) hi (suc i) h x b w e p l =
    let r = carve-in_holes need (g.foff + g.len) t hi i h x b w.2 e p l in
    let o = get_elem?-bounds (g.foff + g.len) t hi i h w.2 e in
    (ground (arith, r.0), ground (arith, r.1))

-- What handing out `e` promises.
pub record Takes (s : Alloc) (e : Extent) (t : Alloc) : Type 0 where
  pub sound : IsSound t
  pub data_area : super_size ≤ e.foff
  pub nonempty : 0 < e.len
  pub was_free : (x : ℕ) → in_range e.foff e.len x ≡ true → is_free s x ≡ true
  pub free : (x : ℕ) → is_free t x ≡ is_free s x && not (in_range e.foff e.len x)

carve-Takes :
    (s : Alloc) (need i : ℕ) (h : Hole)
    → IsSound s
    → get_elem? s.fl i ≡ some h
    → 0 < need
    → need ≤ h.len
    → Takes s (record { foff = h.foff; len = need }) (record s { fl = carve need i s.fl })
carve-Takes s need i h v e p l =
    let limit : s.file_end ≤ 2 ^ 64 = omega (arith, v.word) in
    let o = get_elem?-bounds _ s.fl s.file_end i h v.sorted e in
    let c = λ (x : ℕ). carve-in_holes need _ s.fl s.file_end i h x limit v.sorted e p l in
    record {
      sound = record {
        sorted = carve-IsCoalesced need _ s.fl s.file_end i h limit v.sorted e p l;
        word = v.word;
      };
      data_area = omega arith;
      nonempty = p;
      was_free = λ x q. ground (arith, c x);
      free = λ x. ground (arith, c x);
    }

-- How a search for space ends.
pub data BestFit (s : Alloc) (need : ℕ) (r : Alloc × Option Extent) : Type 0 where
  taken :
      (e : Extent)
      → r.1 ≡ some e
      → e.len ≡ round_up need
      → Takes s e r.0
      → r.0.file_end ≡ s.file_end
      → (h : Hole) (i : ℕ) → get_elem? s.fl i ≡ some h
      → h.foff ≡ e.foff
      → NoBetter (round_up need) h.len s.fl
      → BestFit s need r
  nothing :
      r.1 ≡ none
      → r.0 ≡ s
      → (round_up need ≡ 0) ⊎ NoneCovers (round_up need) s.fl
      → BestFit s need r

-- On a sound free list `ls_alloc_best` either hands out the first `round_up need` bytes of a hole
-- that covers them, and no hole that covers them is smaller, these bytes were free and are the only
-- ones that stop being free, the list stays sound and the end of the file stays; or it hands out
-- nothing and changes nothing, and the rounded request is 0 or no hole covers it.
pub alloc_best-BestFit : (s : Alloc) (need : ℕ) → IsSound s → BestFit s need (alloc_best s need)
unfolding alloc_best
alloc_best-BestFit s need v = elim (Bool-cases (round_up need == 0)) [
  | inl zero_size ↦ rw zero_size (nothing refl refl (inl (ground arith)))
  | inr some_size ↦ elim (Option-cases (scan_best (round_up need) s.fl 0 none)) [
    | inl e ↦
        rw (e, alloc_best, some_size) (nothing refl refl (inr (scan_best-none _ s.fl 0 none e).1))
    | inr ((i, h), e) ↦
        let b = scan_best-some (round_up need) s.fl 0 none i h tt e in
        let at = Found-none s.fl i h b.found in
        rw (e, alloc_best, some_size)
          (taken (record { foff = h.foff; len = round_up need }) refl refl
            (carve-Takes s (round_up need) i h v at (ground arith) b.fits) refl h i at refl b.least)
  ]
]

pub data LargestFit (s : Alloc) (least : ℕ) (r : Alloc × Option Extent) : Type 0 where
  whole :
      (e : Extent) (i : ℕ)
      → r.1 ≡ some e
      → round_up least ≤ e.len
      → Takes s e r.0
      → r.0.file_end ≡ s.file_end
      → get_elem? s.fl i ≡ some e
      → NoLonger e.len s.fl
      → LargestFit s least r
  too_small : r.1 ≡ none → r.0 ≡ s → NoneCovers (round_up least) s.fl → LargestFit s least r

-- On a sound free list `ls_alloc_largest` either hands out a whole hole of at least `round_up least`
-- bytes, no hole is longer, exactly its bytes stop being free, the list stays sound and the end of
-- the file stays; or it hands out nothing and changes nothing, and no hole has `round_up least`
-- bytes.
pub alloc_largest-LargestFit :
    (s : Alloc) (least : ℕ) → IsSound s → LargestFit s least (alloc_largest s least)
unfolding alloc_largest
alloc_largest-LargestFit s least v = elim (Option-cases (scan_largest s.fl 0 none)) [
  | inl e ↦ rw (e, alloc_largest) (too_small refl refl (rw (scan_largest-none s.fl 0 none e).1 tt))
  | inr ((i, h), e) ↦
      let (f, long, _) = scan_largest-some s.fl 0 none i h e in
      let at = Found-none s.fl i h f in
      let o = get_elem?-bounds _ s.fl s.file_end i h v.sorted at in
      elim (Bool-cases (leb (round_up least) h.len)) [
        | inl fits ↦
            rw (e, alloc_largest, fits, remove_at-eq-carve i s.fl h at)
              (whole h i refl (ground arith) (carve-Takes s h.len i h v at o.1 (omega arith)) refl
                at long)
        | inr short ↦
            rw (e, alloc_largest, short)
              (too_small refl refl
                (NoLonger-NoneCovers h.len (round_up least) s.fl (ground arith) long))
      ]
]

-- On a sound free list, for a request that is not 0 when rounded and an end of file that stays a
-- 64-bit offset: `ls_alloc_tail` hands out `round_up need` bytes that were past the end of the file,
-- moves the end of the file up by as much, and leaves the free list sound.
pub alloc_tail-Takes :
    (s : Alloc) (need : ℕ)
    → IsSound s
    → 0 < round_up need
    → s.file_end + round_up need < 2 ^ 64
    → Takes s (alloc_tail s need).1 (alloc_tail s need).0
      × ((alloc_tail s need).1.len ≡ round_up need)
      × ((alloc_tail s need).0.file_end ≡ s.file_end + round_up need)
unfolding alloc_tail
alloc_tail-Takes s need v p l =
    let lo = IsCoalesced-lt _ s.fl s.file_end v.sorted in
    let end = +₆₄-eq s.file_end (round_up need) l in
    (
      record {
        sound = record {
          sorted = rw end (IsCoalesced-mono _ s.fl s.file_end _ (omega arith) v.sorted);
          word = omega (arith, end);
        };
        data_area = omega arith;
        nonempty = p;
        was_free = λ x q. ground arith;
        free = λ x. rw end (ground (arith, in_holes-high _ s.fl s.file_end x v.sorted));
      },
      refl,
      end,
    )
