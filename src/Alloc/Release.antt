-- ===== src/Alloc/Release.antt =====
-- `ls_free_extents` of src/alloc.c, stated for callers: extents that they hold go back to the free
-- space, and nothing else does.
use libspill.Base.{
  ◌⊎◌, ap, sym, ◌==◌, refl, ℕ, ◌+◌, ◌-◌, ◌≤◌, ◌<◌, ◌≡◌, inl, inr, Bool, true, false, ◌||◌, List, [],
  ◌∷◌, arith, Bool-cases, Option-cases, ◌∙◌, length,
}
use libspill.Alloc.{
  Hole, Extent, Alloc, Cursor, super_size, fl_insert, insert_at, fl_reserve, merge_left, seek,
  merge_right, hole_end, trim_tail, split_last, free_all, free_extents,
}
use libspill.Alloc.Shape.{IsCoalesced, in_range, in_holes, Apart}
use libspill.Alloc.Insert.{IsSound, is_free, Inserts, released, lost, fl_insert-Inserts}
use libspill.Alloc.Handout.{Takes}

-- A caller holds `e`: it lies past the superblock, is not empty, and none of its bytes is free.
pub record Holds (s : Alloc) (e : Extent) : Type 0 where
  pub data_area : super_size ≤ e.foff
  pub nonempty : 0 < e.len
  pub not_free : (x : ℕ) → in_range e.foff e.len x ≡ true → is_free s x ≡ false

Holds-Apart :
    (fl : List Hole) (lo hi foff len : ℕ)
    → IsCoalesced lo fl hi
    → 0 < len
    → ((x : ℕ) → in_range foff len x ≡ true → in_holes fl x ≡ false)
    → Apart fl foff len
Holds-Apart [] lo hi foff len w p d = tt
Holds-Apart (h ∷ t) lo hi foff len w p d = (
  ground (arith, w.1, d foff, d h.foff),
  Holds-Apart t (h.foff + h.len) hi foff len w.2 p (λ x q. ground (arith, d x)),
)

Holds-lem :
    (s : Alloc) (e : Extent)
    → IsSound s
    → Holds s e
    → (e.foff + e.len ≤ s.file_end) × Apart s.fl e.foff e.len
Holds-lem s e v h = (
  ground (arith, h.nonempty, h.not_free (e.foff + e.len - 1)),
  Holds-Apart s.fl _ s.file_end e.foff e.len v.sorted h.nonempty
      (λ x q. ground (arith, h.not_free x)),
)

-- No two of the extents share a byte.
abbrev pub DisjointFrom : Extent → List Extent → Type 0
DisjointFrom e [] = Unit {0}
DisjointFrom e (f ∷ fs) =
    ((x : ℕ) → in_range e.foff e.len x ≡ true → in_range f.foff f.len x ≡ false) × DisjointFrom e fs

abbrev pub HoldsAll : Alloc → List Extent → Type 0
HoldsAll s [] = Unit {0}
HoldsAll s (e ∷ es) = Holds s e × DisjointFrom e es × HoldsAll s es

trim_tail-grants : (s : Alloc) → (trim_tail s).grants ≡ s.grants
unfolding trim_tail
trim_tail-grants s = elim (Option-cases (split_last s.fl)) [
  | inl e ↦ rw (e, trim_tail)
  | inr ((i, l), e) ↦ rw (e, trim_tail) (ground arith)
]

-- With memory at hand, there is memory at hand afterwards.
insert_at-grants :
    (s : Alloc) (foff len : ℕ) (c : Cursor) → s.grants ≡ [] → (insert_at s foff len c).0.grants ≡ []
unfolding insert_at
insert_at-grants s foff len c e = elim (Option-cases (merge_left foff len c.before)) [
  | inr (l, q) ↦ rw (q, insert_at, trim_tail-grants) e
  | inl q ↦
      let kept : (fl_reserve s (length s.fl + 1)).0.grants ≡ [] =
        unfold fl_reserve in ground arith in
      elim (Bool-cases (fl_reserve s (length s.fl + 1)).1) [
        | inl ok ↦ rw (q, insert_at, ok, trim_tail-grants) kept
        | inr refused ↦ rw (q, insert_at, refused) kept
      ]
]

pub fl_insert-grants :
    (s : Alloc) (foff len : ℕ) → s.grants ≡ [] → (fl_insert s foff len).0.grants ≡ []
unfolding fl_insert
fl_insert-grants s foff len e = ground (arith, insert_at-grants s foff len (seek foff [] s.fl) e)

trim_tail-teardown : (s : Alloc) → (trim_tail s).teardown ≡ s.teardown
unfolding trim_tail
trim_tail-teardown s = elim (Option-cases (split_last s.fl)) [
  | inl e ↦ rw (e, trim_tail)
  | inr ((i, l), e) ↦ rw (e, trim_tail) (ground arith)
]

insert_at-teardown :
    (s : Alloc) (foff len : ℕ) (c : Cursor) → (insert_at s foff len c).0.teardown ≡ s.teardown
unfolding insert_at
insert_at-teardown s foff len c = elim (Option-cases (merge_left foff len c.before)) [
  | inr (l, q) ↦ rw (q, insert_at) (trim_tail-teardown _)
  | inl q ↦
      let kept : (fl_reserve s (length s.fl + 1)).0.teardown ≡ s.teardown =
        unfold fl_reserve in ground arith in
      elim (Bool-cases (fl_reserve s (length s.fl + 1)).1) [
        | inl ok ↦ rw (q, insert_at, ok) (trim_tail-teardown _ ∙ kept)
        | inr refused ↦ rw (q, insert_at, refused) kept
      ]
]

pub fl_insert-teardown : (s : Alloc) (foff len : ℕ) → (fl_insert s foff len).0.teardown ≡ s.teardown
unfolding fl_insert
fl_insert-teardown s foff len = ground (arith, insert_at-teardown s foff len (seek foff [] s.fl))

-- no cut of the file below `n`
abbrev pub AtLeast : ℕ → List ℕ → Type 0
AtLeast n [] = Unit {0}
AtLeast n (c ∷ cs) = (n ≤ c) × AtLeast n cs

AtLeast-le : (m n : ℕ) (cs : List ℕ) → m ≤ n → AtLeast n cs → AtLeast m cs
AtLeast-le m n [] l h = tt
AtLeast-le m n (c ∷ cs) l h = (omega (arith, l, h.0), AtLeast-le m n cs l h.1)

-- The file is cut where its end moves to, or the end does not move.
abbrev pub Cut : Alloc → Alloc → Type 0
Cut s t = ((t.cuts ≡ s.cuts) × (t.file_end ≡ s.file_end)) ⊎ (t.cuts ≡ t.file_end ∷ s.cuts)

trim_tail-Cut : (s : Alloc) → Cut s (trim_tail s)
unfolding trim_tail
trim_tail-Cut s = elim (Option-cases (split_last s.fl)) [
  | inl e ↦ rw (e, trim_tail) (inl (refl, refl))
  | inr ((i, l), e) ↦ elim (Bool-cases (hole_end l == s.file_end)) [
    | inl reach ↦ rw (e, trim_tail, reach) (inr refl)
    | inr stops ↦ rw (e, trim_tail, stops) (inl (refl, refl))
  ]
]

Cut-from : (s s' t : Alloc) → s'.cuts ≡ s.cuts → s'.file_end ≡ s.file_end → Cut s' t → Cut s t
Cut-from s s' t c e (inl (d, f)) = inl (d ∙ c, f ∙ e)
Cut-from s s' t c e (inr d) = inr (d ∙ ap (λ cs. t.file_end ∷ cs) c)

insert_at-Cut : (s : Alloc) (foff len : ℕ) (c : Cursor) → Cut s (insert_at s foff len c).0
unfolding insert_at
insert_at-Cut s foff len c = elim (Option-cases (merge_left foff len c.before)) [
  | inr (l, q) ↦ rw (q, insert_at) (trim_tail-Cut (record s { fl = merge_right l c.after }))
  | inl q ↦
      let kept : ((fl_reserve s (length s.fl + 1)).0.cuts ≡ s.cuts)
          × ((fl_reserve s (length s.fl + 1)).0.file_end ≡ s.file_end) =
        unfold fl_reserve in ground arith in
      elim (Bool-cases (fl_reserve s (length s.fl + 1)).1) [
        | inl ok ↦
            rw (q, insert_at, ok)
              (let w : Alloc = record (fl_reserve s (length s.fl + 1)).0 {
                fl = merge_right (record { foff = foff; len = len } ∷ c.before) c.after;
              } in
                Cut-from s w (trim_tail w) kept.0 kept.1 (trim_tail-Cut w))
        | inr refused ↦ rw (q, insert_at, refused) (inl kept)
      ]
]

fl_insert-Cut : (s : Alloc) (foff len : ℕ) → Cut s (fl_insert s foff len).0
unfolding fl_insert
fl_insert-Cut s foff len = elim (Bool-cases (len == 0)) [
  | inl none_left ↦ rw none_left (inl (refl, refl))
  | inr some_left ↦ rw some_left (insert_at-Cut s foff len (seek foff [] s.fl))
]

Cut-AtLeast :
    (s t : Alloc)
    → t.file_end ≤ s.file_end
    → Cut s t
    → AtLeast s.file_end s.cuts
    → AtLeast t.file_end t.cuts
Cut-AtLeast s t l (inl (same, end)) h = rw (same, end) h
Cut-AtLeast s t l (inr e) h = rw e (omega arith, AtLeast-le t.file_end s.file_end s.cuts l h)

abbrev CutAll : Alloc → Alloc → Type 0
CutAll s t =
    ((t.cuts ≡ s.cuts) × (t.file_end ≡ s.file_end)) ⊎ ((cs : List ℕ) × (t.cuts ≡ t.file_end ∷ cs))

Cut-CutAll : (s t u : Alloc) → Cut s t → CutAll t u → CutAll s u
Cut-CutAll s t u a (inr b) = inr b
Cut-CutAll s t u (inl (c, e)) (inl (d, f)) = inl (d ∙ c, f ∙ e)
Cut-CutAll s t u (inr c) (inl (d, f)) = inr (s.cuts, d ∙ c ∙ ap (λ n. n ∷ s.cuts) (sym f))

free_all-CutAll : (s : Alloc) (es : List Extent) → CutAll s (free_all s es)
unfolding free_all
free_all-CutAll s [] = inl (refl, refl)
free_all-CutAll s (e ∷ es) =
    Cut-CutAll s (fl_insert s e.foff e.len).0 (free_all (fl_insert s e.foff e.len).0 es)
      (fl_insert-Cut s e.foff e.len) (free_all-CutAll (fl_insert s e.foff e.len).0 es)

CutAll-trimmed :
    (s t : Alloc)
    → CutAll s t
    → t.file_end < s.file_end
    → (cs : List ℕ) × (t.cuts ≡ t.file_end ∷ cs)
CutAll-trimmed s t (inl (c, e)) l = absurd (omega (arith, e, l))
CutAll-trimmed s t (inr h) l = h

-- What freeing the extents promises. Without memory for the list an extent may be lost to it.
pub record Frees (s : Alloc) (es : List Extent) (t : Alloc) : Type 0 where
  pub sound : IsSound t
  pub live : t.teardown ≡ s.teardown
  pub shorter : t.file_end ≤ s.file_end
  pub keeps : (x : ℕ) → is_free s x ≡ true → is_free t x ≡ true
  pub only : (x : ℕ) → is_free t x ≡ true → is_free s x || in_holes es x ≡ true
  pub all : s.grants ≡ [] → (x : ℕ) → is_free t x ≡ is_free s x || in_holes es x
  pub cuts : AtLeast s.file_end s.cuts → AtLeast t.file_end t.cuts
  pub trimmed : t.file_end < s.file_end → (cs : List ℕ) × (t.cuts ≡ t.file_end ∷ cs)

-- Freeing one extent frees no byte of a disjoint one.
Holds-keeps :
    (s t : Alloc) (e f : Extent)
    → ((x : ℕ) → is_free t x ≡ true → is_free s x || in_range e.foff e.len x ≡ true)
    → ((x : ℕ) → in_range e.foff e.len x ≡ true → in_range f.foff f.len x ≡ false)
    → Holds s f
    → Holds t f
Holds-keeps s t e f only apart h = record {
  data_area = h.data_area;
  nonempty = h.nonempty;
  not_free = λ x q. ground (arith, only x, apart x, h.not_free x);
}

HoldsAll-keeps :
    (s t : Alloc) (e : Extent) (fs : List Extent)
    → ((x : ℕ) → is_free t x ≡ true → is_free s x || in_range e.foff e.len x ≡ true)
    → DisjointFrom e fs
    → HoldsAll s fs
    → HoldsAll t fs
HoldsAll-keeps s t e [] only apart h = tt
HoldsAll-keeps s t e (f ∷ fs) only apart h =
    (Holds-keeps s t e f only apart.0 h.0, h.1, HoldsAll-keeps s t e fs only apart.1 h.2)

record FreesOne (s : Alloc) (e : Extent) (t : Alloc) : Type 0 where
  sound : IsSound t
  shorter : t.file_end ≤ s.file_end
  keeps : (x : ℕ) → is_free s x ≡ true → is_free t x ≡ true
  only : (x : ℕ) → is_free t x ≡ true → is_free s x || in_range e.foff e.len x ≡ true
  all : s.grants ≡ [] → (x : ℕ) → is_free t x ≡ is_free s x || in_range e.foff e.len x

Inserts-FreesOne :
    (s : Alloc) (e : Extent) (r : Alloc × Bool)
    → IsSound s
    → Inserts s e.foff e.len r
    → FreesOne s e r.0
Inserts-FreesOne s e r v (released ok d) = record {
  sound = d.sound;
  shorter = d.shorter;
  keeps = λ x q. rw (d.free x, q);
  only = λ x q. rw (← d.free x) q;
  all = λ g. d.free;
}
Inserts-FreesOne s e r v (lost failed refused fl fe) = record {
  sound = record { sorted = rw (fl, fe) v.sorted; word = rw fe v.word };
  shorter = omega (arith, fe);
  keeps = λ x q. rw (fl, fe) q;
  only = λ x q. ground (arith, rw (fl, fe) at q);
  all = λ g. absurd (ground (arith, rw g at refused));
}

free_all-Frees :
    (s : Alloc) (es : List Extent) → IsSound s → HoldsAll s es → Frees s es (free_all s es)
unfolding free_all
free_all-Frees s [] v h = record {
  sound = v;
  live = refl;
  shorter = omega arith;
  keeps = λ x q. q;
  only = λ x q. ground arith;
  all = λ g x. ground arith;
  cuts = λ h. h;
  trimmed = λ l. absurd (omega (arith, l));
}
free_all-Frees s (e ∷ es) v h =
    let (bound, apart) = Holds-lem s e v h.0 in
    let one =
      Inserts-FreesOne s e _ v (fl_insert-Inserts s e.foff e.len v h.0.data_area bound apart) in
    let rest =
      free_all-Frees (fl_insert s e.foff e.len).0 es one.sound
        (HoldsAll-keeps s _ e es one.only h.1 h.2) in
    record {
      sound = rest.sound;
      live = rest.live ∙ fl_insert-teardown s e.foff e.len;
      shorter = omega (arith, rest.shorter, one.shorter);
      keeps = λ x q. rest.keeps x (one.keeps x q);
      only = λ x q. ground (arith, rest.only x q, one.only x);
      all = λ g x. ground (arith, rest.all (fl_insert-grants s e.foff e.len g) x, one.all g x);
      cuts = λ h.
          rest.cuts (
            Cut-AtLeast s (fl_insert s e.foff e.len).0 one.shorter (fl_insert-Cut s e.foff e.len)
              h);
      trimmed = λ l. CutAll-trimmed s (free_all s (e ∷ es)) (free_all-CutAll s (e ∷ es)) l;
    }

-- For a sound free list outside of teardown and extents that the caller holds: after
-- `ls_free_extents` the free list is sound, no free byte is lost, no byte outside of the extents
-- becomes free, and all bytes of the extents are free if memory is never refused; the file is cut at
-- the end of the file when that moved down, and nowhere below it.
pub free_extents-Frees :
    (s : Alloc) (es : List Extent)
    → IsSound s
    → s.teardown ≡ false
    → HoldsAll s es
    → Frees s es (free_extents s es)
unfolding free_extents
free_extents-Frees s es v live h = simp live (free_all-Frees s es v h)

-- Whoever is handed an extent holds it.
pub Takes-Holds : (s : Alloc) (e : Extent) (t : Alloc) → Takes s e t → Holds t e
Takes-Holds s e t k = record {
  data_area = k.data_area;
  nonempty = k.nonempty;
  not_free = λ x q. ground (arith, k.free x);
}

-- Where handing an extent out took a store from one state to another, not in teardown and with
-- memory at hand: freeing the extent at once makes the same bytes free as before.
pub free_extents-Takes :
    (s t : Alloc) (e : Extent)
    → Takes s e t
    → t.teardown ≡ false
    → t.grants ≡ []
    → (x : ℕ) → is_free (free_extents t (e ∷ [])) x ≡ is_free s x
free_extents-Takes s t e k live g x =
    let f = free_extents-Frees t (e ∷ []) k.sound live (Takes-Holds s e t k, tt, tt) in
    ground (arith, f.all g x, k.free x, k.was_free x)
