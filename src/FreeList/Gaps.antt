-- ===== src/FreeList/Gaps.antt =====
-- The rebuilt free list frees exactly the gaps, and extents that overlap are refused.
use libspill.Base.{
  ℕ, ◌+◌, ◌-◌, ◌^◌, ◌≤◌, ◌<◌, ◌≡◌, refl, inl, inr, false, ◌&&◌, ◌||◌, not, List, [], ◌∷◌, arith,
  ltb, leb, if◌then◌else◌, Bool-cases, ◌-₆₄◌, +₆₄-eq, -₆₄-eq, ◌∙◌,
}
use libspill.Alloc.{Extent, Alloc, super_size, free_extents, free_all, later_grants}
use libspill.Alloc.Shape.{in_range, in_holes}
use libspill.Alloc.Insert.{IsSound, is_free}
use libspill.Alloc.Release.{Holds, Frees, free_extents-Frees, fl_insert-grants, fl_insert-teardown}
use libspill.Status.{ok}
use libspill.FreeList.{fill_gaps}
use libspill.TocFile.Fields.{InFile}

-- The extents follow each other from `cur` on, without overlap.
abbrev pub Follow : ℕ → List Extent → Type 0
Follow cur [] = Unit {0}
Follow cur (e ∷ es) = (cur ≤ e.foff) × Follow (e.foff + e.len) es

abbrev pub NonEmpty : List Extent → Type 0
NonEmpty [] = Unit {0}
NonEmpty (e ∷ es) = (0 < e.len) × NonEmpty es

-- the end of the last extent
abbrev pub last_end : ℕ → List Extent → ℕ
last_end cur [] = cur
last_end cur (e ∷ es) = last_end (e.foff + e.len) es

-- The loop never accepts extents that overlap in the order given.
pub fill_gaps-Follow :
    (s t : Alloc) (cur file_end : ℕ) (es : List Extent)
    → file_end < 2 ^ 64
    → InFile file_end es
    → fill_gaps s cur es ≡ ok t
    → Follow cur es
unfolding fill_gaps
fill_gaps-Follow s t cur file_end [] b h e = tt
fill_gaps-Follow s t cur file_end (x ∷ es) b h e =
    let q = +₆₄-eq x.foff x.len (omega arith) in
    let first : cur ≤ x.foff = ground arith in
    let s' =
      if ltb cur x.foff
      then free_extents s (record { foff = cur; len = x.foff -₆₄ cur } ∷ [])
      else s in
    let rest : fill_gaps s' (x.foff + x.len) es ≡ ok t = ground (arith, q) in
    (first, fill_gaps-Follow s' t (x.foff + x.len) file_end es b h.2 rest)

pub in_holes-Follow :
    (cur : ℕ) (es : List Extent) (x : ℕ) → Follow cur es → x < cur → in_holes es x ≡ false
in_holes-Follow cur [] x w l = refl
in_holes-Follow cur (e ∷ es) x w l = ground (arith, in_holes-Follow (e.foff + e.len) es x)

last_end-le : (cur : ℕ) (es : List Extent) → Follow cur es → cur ≤ last_end cur es
last_end-le cur [] w = omega arith
last_end-le cur (e ∷ es) w = omega (arith, last_end-le (e.foff + e.len) es w.1)

pub record State (file_end cur : ℕ) (s : Alloc) : Type 0 where
  pub sound : IsSound s
  pub live : s.teardown ≡ false
  pub memory : s.grants ≡ []
  pub used : (x : ℕ) → cur ≤ x → x < file_end → is_free s x ≡ false

-- One gap.
module _ (file_end cur foff : ℕ) (s : Alloc) (st : State file_end cur s) (low : super_size ≤ cur)
    (gap : cur < foff) (high : foff < file_end) where
  hole : Extent
  hole = record { foff = cur; len = foff - cur }

  held : Holds s hole
  unfolding hole
  held = record {
    data_area = low;
    nonempty = omega arith;
    not_free = λ x q. st.used x (ground arith) (ground arith);
  }

  freed : Frees s (hole ∷ []) (free_extents s (hole ∷ []))
  freed = free_extents-Frees s (hole ∷ []) st.sound st.live (held, tt, tt)

  free_gap :
      State file_end foff (free_extents s (record { foff = cur; len = foff - cur } ∷ []))
      × ((x : ℕ)
          → is_free (free_extents s (record { foff = cur; len = foff - cur } ∷ [])) x
            ≡ is_free s x || in_range cur (foff - cur) x)
  unfolding hole
  free_gap = (
    record {
      sound = freed.sound;
      live =
          unfold free_extents free_all in
          simp st.live (fl_insert-teardown s cur (foff - cur) ∙ st.live);
      memory =
          unfold free_extents free_all in
          simp st.live (fl_insert-grants s cur (foff - cur) st.memory);
      used = λ x l h. ground (arith, freed.all st.memory x, st.used x (omega arith) h);
    },
    λ x. freed.all st.memory x ∙ ground arith,
  )

-- What the rebuilt free list says, from `cur` on.
pub record Rebuilt (file_end cur : ℕ) (es : List Extent) (s t : Alloc) : Type 0 where
  pub sound : IsSound t
  pub before : (x : ℕ) → x < cur → is_free t x ≡ is_free s x
  pub gaps : (x : ℕ) → cur ≤ x → x < last_end cur es → is_free t x ≡ not (in_holes es x)
  pub after : (x : ℕ) → last_end cur es ≤ x → x < file_end → is_free t x ≡ false

State-later :
    (file_end cur cur' : ℕ) (s : Alloc) → cur ≤ cur' → State file_end cur s → State file_end cur' s
State-later file_end cur cur' s l st = record {
  sound = st.sound;
  live = st.live;
  memory = st.memory;
  used = λ x q h. st.used x (omega arith) h;
}

-- The state after the gap before one extent, if there is a gap.
module _ (file_end cur : ℕ) (e : Extent) (s : Alloc) (b : file_end < 2 ^ 64)
    (low : super_size ≤ cur) (first : cur ≤ e.foff) (inside : e.foff + e.len ≤ file_end)
    (some_len : 0 < e.len) (st : State file_end cur s) where
  after_gap : Alloc
  after_gap =
      if ltb cur e.foff
      then free_extents s (record { foff = cur; len = e.foff -₆₄ cur } ∷ [])
      else s

  after_gap-State :
      State file_end (e.foff + e.len) after_gap
      × ((x : ℕ) → is_free after_gap x ≡ is_free s x || (leb cur x && ltb x e.foff))
  unfolding after_gap
  after_gap-State =
      let m : e.foff -₆₄ cur ≡ e.foff - cur = -₆₄-eq e.foff cur (omega arith) first in
      elim (Bool-cases (ltb cur e.foff)) [
        | inr none_there ↦
            rw none_there
              (State-later file_end cur (e.foff + e.len) s (omega arith) st, λ x. ground arith)
        | inl gap ↦
            let (st', f) = free_gap file_end cur e.foff s st low (ground arith) (omega arith) in
            rw (gap, m)
              (
                State-later file_end e.foff (e.foff + e.len) _ (omega arith) st',
                λ x. f x ∙ ground arith,
              )
      ]

pub fill_gaps-Rebuilt :
    (file_end cur : ℕ) (es : List Extent) (s t : Alloc)
    → file_end < 2 ^ 64
    → super_size ≤ cur
    → InFile file_end es
    → NonEmpty es
    → State file_end cur s
    → fill_gaps s cur es ≡ ok t
    → Rebuilt file_end cur es s t
unfolding fill_gaps
fill_gaps-Rebuilt file_end cur [] s t b low h n st e =
    let same : s ≡ t = ground arith in
    rw (← same) (record {
      sound = st.sound;
      before = λ x l. refl;
      gaps = λ x l h. absurd (omega arith);
      after = λ x l h. st.used x l h;
    })
fill_gaps-Rebuilt file_end cur (x ∷ es) s t b low h n st e =
    let follow = fill_gaps-Follow s t cur file_end (x ∷ es) b h (unfold fill_gaps in e) in
    let q = +₆₄-eq x.foff x.len (omega arith) in
    let s' = after_gap file_end cur x s b low follow.0 h.1 n.0 st in
    let (st', f) = after_gap-State file_end cur x s b low follow.0 h.1 n.0 st in
    let rest : fill_gaps s' (x.foff + x.len) es ≡ ok t = unfold after_gap in ground (arith, q) in
    let r = fill_gaps-Rebuilt file_end (x.foff + x.len) es s' t b (omega arith) h.2 n.1 st' rest in
    record {
      sound = r.sound;
      before = λ y l. r.before y (omega arith) ∙ ground (arith, f y);
      gaps = λ y l m. elim (Bool-cases (leb (x.foff + x.len) y)) [
        | inl late ↦ ground (arith, r.gaps y, late)
        | inr early ↦ ground (
          arith,
          early,
          r.before y,
          f y,
          st.used y l,
          in_holes-Follow (x.foff + x.len) es y follow.1,
        )
      ];
      after = r.after;
    }

-- A free list before the rebuild: no hole, memory at hand, and an end of file above the superblock.
pub record Reopened (file_end : ℕ) (s : Alloc) : Type 0 where
  pub no_holes : s.fl ≡ []
  pub end : s.file_end ≡ file_end
  pub live : s.teardown ≡ false
  pub memory : s.grants ≡ []
  pub room : super_size ≤ file_end
  pub word : file_end < 2 ^ 64

pub Reopened-State :
    (file_end : ℕ) (s : Alloc)
    → Reopened file_end s
    → State file_end super_size (record s { grants = later_grants s.grants })
Reopened-State file_end s r = record {
  sound = record {
    sorted = rw (r.no_holes, r.end) (omega (arith, r.room));
    word = rw r.end r.word;
  };
  live = r.live;
  memory = rw r.memory refl;
  used = λ x l h. rw (r.no_holes, r.end) (ground arith);
}
