-- ===== src/Alloc/Insert.antt =====
-- `fl_insert` of src/alloc.c: it keeps the free list sorted, apart and coalesced, and adds exactly
-- the freed bytes to the free space.
use libspill.Base.{
  ℕ, suc, ◌+◌, ◌-◌, ◌^◌, ◌≤◌, ◌<◌, ◌≡◌, refl, inl, inr, Bool, true, false, ◌||◌, none, some, List,
  [], ◌∷◌, ◌++◌, arith, leb, ◌==◌, Bool-cases, Option-cases, ◌+₆₄◌, +₆₄-eq, length, sym, ◌∙◌,
}
use libspill.Alloc.{
  Hole, Alloc, Cursor, super_size, rejoin, seek, hole_end, merge_left, merge_right, split_last,
  trim_tail, insert_at, fl_insert, fl_reserve, granted,
}
use libspill.Alloc.Shape.{
  IsCoalesced, in_range, in_holes, Apart, Gap, Before, After, IsCursor, seek-IsCursor, seek-rejoin,
  in_holes-rejoin, IsCoalesced-lt, IsCoalesced-mono, in_holes-high,
}
use libspill.Alloc.Merge.{
  hole_end-eq, merge_right-IsCoalesced, in_holes-merge_right, split_last-some, split_last-none,
  IsCoalesced-init, IsCoalesced-end, in_holes-last,
}

-- The free bytes of the allocator: those in a hole, and those past the end of the file.
abbrev pub is_free : Alloc → ℕ → Bool
is_free s x = in_holes s.fl x || leb s.file_end x

pub record IsSound (s : Alloc) : Type 0 where
  pub sorted : IsCoalesced (super_size - 1) s.fl s.file_end
  pub word : s.file_end < 2 ^ 64

record Trims (s t : Alloc) : Type 0 where
  sound : IsSound t
  shorter : t.file_end ≤ s.file_end
  free : (x : ℕ) → is_free t x ≡ is_free s x

trim_tail-Trims :
    (s : Alloc)
    → super_size - 1 < s.file_end
    → s.file_end < 2 ^ 64
    → IsCoalesced (super_size - 1) s.fl (suc s.file_end)
    → Trims s (trim_tail s)
unfolding trim_tail
trim_tail-Trims s lo b w = elim (Option-cases (split_last s.fl)) [
  | inl n ↦
      let e = split_last-none s.fl n in
      rw (n, trim_tail)
        (record {
          sound = record { sorted = rw e lo; word = b };
          shorter = omega arith;
          free = λ x. refl;
        })
  | inr ((init, last), q) ↦
      let e = split_last-some s.fl init last q in
      let w' : IsCoalesced (super_size - 1) (init ++ last ∷ []) (suc s.file_end) = rw e at w in
      let r = IsCoalesced-init (super_size - 1) init last (suc s.file_end) w' in
      let end = hole_end-eq last (omega arith) in
      elim (Bool-cases (hole_end last == s.file_end)) [
        | inl reach ↦
            rw (q, trim_tail, reach)
              (record {
                sound = record { sorted = r.0; word = omega arith };
                shorter = omega arith;
                free =
                    λ x. rw (e, in_holes-last) (ground (arith, end, in_holes-high _ init _ x r.0));
              })
        | inr stops ↦
            rw (q, trim_tail, stops)
              (record {
                sound = record {
                  sorted = rw e (IsCoalesced-end _ init last _ _ w' (ground (arith, end)));
                  word = b;
                };
                shorter = omega arith;
                free = λ x. refl;
              })
      ]
]

-- What `fl_insert` promises when it does not run out of memory: the invariant, an end of file that
-- does not move up, and exactly the bytes of the range added to the free space.
pub record Releases (s : Alloc) (foff len : ℕ) (t : Alloc) : Type 0 where
  pub sound : IsSound t
  pub shorter : t.file_end ≤ s.file_end
  pub free : (x : ℕ) → is_free t x ≡ is_free s x || in_range foff len x

-- The merge on the left puts the range at the head of the holes before the cursor.
merge_left-lem :
    (lo foff len : ℕ) (before b : List Hole)
    → Before lo before foff
    → foff + len < 2 ^ 64
    → merge_left foff len before ≡ some b
    → (p : Hole) × (ps : List Hole) × (b ≡ p ∷ ps)
      × (p.foff + p.len ≡ foff + len)
      × (0 < p.len)
      × Gap lo ps p.foff
      × ((x : ℕ) → in_holes b x ≡ in_holes before x || in_range foff len x)
unfolding merge_left
merge_left-lem lo foff len [] b w l e = cc
merge_left-lem lo foff len (p ∷ ps) b w l e =
    let f1 = hole_end-eq p (omega arith) in
    let f2 = λ (h : p.foff + p.len ≡ foff). +₆₄-eq p.len len (omega arith) in
    let touch : p.foff + p.len ≡ foff = ground (arith, f1) in
    let new : (record p { len = p.len +₆₄ len } ∷ ps) ≡ b = ground (arith, f1) in
    (
      record p { len = p.len +₆₄ len },
      ps,
      sym new,
      ground (arith, f2 touch),
      ground (arith, f2 touch),
      w.2,
      λ x. rw (← new) (ground (arith, f2 touch)),
    )

merge_left-none :
    (lo foff len : ℕ) (before : List Hole)
    → Before lo before foff
    → foff < 2 ^ 64
    → merge_left foff len before ≡ none
    → Gap lo before foff
unfolding merge_left
merge_left-none lo foff len [] w l e = w
merge_left-none lo foff len (p ∷ ps) w l e = (ground (arith, hole_end-eq p), w.1, w.2)

-- The right merge and the trim, from a cursor whose head holds the freed range at its end.
module _ (s t : Alloc) (foff len : ℕ) (sound : IsSound s) (bound : foff + len ≤ s.file_end)
    (same : t.file_end ≡ s.file_end) where
  settle :
      (h : Hole) (ps after : List Hole)
      → h.foff + h.len ≡ foff + len
      → 0 < h.len
      → Gap (super_size - 1) ps h.foff
      → After (foff + len) after (suc s.file_end)
      → ((x : ℕ)
          → (in_holes ps x || (in_range h.foff h.len x || in_holes after x))
            ≡ in_holes s.fl x || in_range foff len x)
      → Releases s foff len (trim_tail (record t { fl = merge_right (h ∷ ps) after }))
  settle h ps after e p g a free =
      let lo = IsCoalesced-lt _ s.fl s.file_end sound.sorted in
      let limit : suc s.file_end ≤ 2 ^ 64 = sound.word in
      let a' : After (h.foff + h.len) after (suc s.file_end) = rw e a in
      let r =
        trim_tail-Trims (record t { fl = merge_right (h ∷ ps) after }) (omega arith)
          (rw same sound.word) (rw same (merge_right-IsCoalesced _ ps h after _ limit g p a')) in
      record {
        sound = r.sound;
        shorter = omega (arith, r.shorter);
        free = λ x.
            r.free x
            ∙ rw
                (
                  in_holes-merge_right (super_size - 1) ps h after (suc s.file_end) x limit p a',
                  free x,
                  same,
                )
                (ground arith);
      }

fl_reserve-fl :
    (s : Alloc) (want : ℕ)
    → ((fl_reserve s want).0.fl ≡ s.fl)
      × ((fl_reserve s want).0.file_end ≡ s.file_end)
      × ((fl_reserve s want).1 ≡ false → granted s.grants ≡ false)
unfolding fl_reserve
fl_reserve-fl s want = ground arith

-- The two ways `fl_insert` ends: the range is released, or there was no memory for one more hole
-- and nothing changed but the refused request.
pub data Inserts (s : Alloc) (foff len : ℕ) (r : Alloc × Bool) : Type 0 where
  released : r.1 ≡ true → Releases s foff len r.0 → Inserts s foff len r
  lost :
      r.1 ≡ false
      → granted s.grants ≡ false
      → r.0.fl ≡ s.fl
      → r.0.file_end ≡ s.file_end
      → Inserts s foff len r

insert_at-Inserts :
    (s : Alloc) (foff len : ℕ) (c : Cursor)
    → IsSound s
    → foff + len ≤ s.file_end
    → 0 < len
    → IsCursor (super_size - 1) foff len (suc s.file_end) c
    → ((x : ℕ) → (in_holes c.before x || in_holes c.after x) ≡ in_holes s.fl x)
    → Inserts s foff len (insert_at s foff len c)
unfolding insert_at
insert_at-Inserts s foff len c sound b p cur whole =
    elim (Option-cases (merge_left foff len c.before)) [
      | inr (l, e) ↦
          let (h, ps, is, end, pos, gap, free) =
            merge_left-lem _ foff len c.before l cur.left (omega (arith, sound.word)) e in
          rw (e, insert_at, is)
            (released refl (
              settle s s foff len sound b refl h ps c.after end pos gap cur.right
                (λ x. ground (arith, rw is at (free x), whole x))))
      | inl e ↦
          let gap = merge_left-none _ foff len c.before cur.left (omega (arith, sound.word)) e in
          let (fl, fe, why) = fl_reserve-fl s (length s.fl + 1) in
          elim (Bool-cases (fl_reserve s (length s.fl + 1)).1) [
            | inl ok ↦
                rw (e, insert_at, ok)
                  (released refl (
                    settle s (fl_reserve s (length s.fl + 1)).0 foff len sound b fe
                      (record { foff = foff; len = len }) c.before c.after refl p gap cur.right
                      (λ x. ground (arith, whole x))))
            | inr refused ↦ rw (e, insert_at, refused) (lost refl (why refused) fl fe)
          ]
    ]

-- For a sound free list and a range in the data area, inside the file and apart from every hole,
-- `fl_insert` either succeeds, and then the list is sound again, the end of the file has not moved
-- up and a byte is free exactly if it was free or lies in the range; or it reports -ENOMEM, and then
-- memory was refused and the holes and the end of the file are what they were.
pub fl_insert-Inserts :
    (s : Alloc) (foff len : ℕ)
    → IsSound s
    → super_size ≤ foff
    → foff + len ≤ s.file_end
    → Apart s.fl foff len
    → Inserts s foff len (fl_insert s foff len)
unfolding fl_insert rejoin
fl_insert-Inserts s foff len sound low b d = elim (Bool-cases (len == 0)) [
  | inl none_left ↦
      rw none_left
        (released refl (record { sound = sound; shorter = omega arith; free = λ x. ground arith }))
  | inr some_left ↦ rw some_left (
      insert_at-Inserts s foff len (seek foff [] s.fl) sound b (ground arith)
        (seek-IsCursor _ foff len (suc s.file_end) s.fl (omega arith) (ground arith) (omega arith)
          (IsCoalesced-mono _ s.fl _ _ (omega arith) sound.sorted) d)
        (λ x.
          sym (in_holes-rejoin (seek foff [] s.fl).before (seek foff [] s.fl).after x)
          ∙ rw (seek-rejoin foff [] s.fl)))
]
