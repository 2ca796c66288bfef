-- ===== src/FreeList/Rebuild.antt =====
-- `rebuild_free_list` as a whole: it refuses exactly the tables in which two extents share a byte,
-- and otherwise frees exactly the bytes below the last extent that no extent uses.
use libspill.Base.{
  ap, ℕ, ◌+◌, ◌-◌, ◌^◌, ◌≤◌, ◌<◌, ◌≡◌, refl, ◌⊎◌, inl, inr, true, false, not, List, [], ◌∷◌, arith,
  ltb, if◌then◌else◌, ◌==◌, length, Bool-cases, ◌+₆₄◌, ◌-₆₄◌, +₆₄-eq, ◌∙◌, ◌++◌, ap, sym,
}
use mathlib.Core.List.{Permᴰ}
use libspill.Alloc.{Extent, Alloc, super_size, free_extents, granted, later_grants}
use libspill.Alloc.Shape.{in_range, in_holes}
use libspill.Alloc.Insert.{IsSound, is_free}
use libspill.Status.{corrupt, Result, ok, fail}
use mathlib.Core.List.{append_assoc}
use libspill.Toc.{Rec}
use libspill.Toc.Grow.{flat}
use libspill.FreeList.{
  chain_extents, fill_gaps, rebuild_free_list, all_extents, IsSort, InOrder, cmp_ext,
}
use libspill.FreeList.Gaps.{
  Follow, NonEmpty, last_end, Reopened, Reopened-State, fill_gaps-Rebuilt, fill_gaps-Follow,
  in_holes-Follow,
}
use libspill.TocFile.Fields.{InFile}

-- how many of the extents use the byte at `x`
abbrev pub uses : List Extent → ℕ → ℕ
uses [] x = 0
uses (e ∷ es) x = (if in_range e.foff e.len x then 1 else 0) + uses es x

-- the extents of the records of a table, whatever chain they are in
abbrev pub extents_of : List Rec → List Extent
extents_of [] = []
extents_of (r ∷ rs) = r.ext ++ extents_of rs

extents_of-append : (c d : List Rec) → extents_of (c ++ d) ≡ extents_of c ++ extents_of d
extents_of-append [] d = refl
extents_of-append (r ∷ c) d =
    ap (λ z. r.ext ++ z) (extents_of-append c d)
    ∙ sym (append_assoc r.ext (extents_of c) (extents_of d))

chain_extents-eq : (c : List Rec) → chain_extents c ≡ extents_of c
unfolding chain_extents
chain_extents-eq [] = refl
chain_extents-eq (r ∷ c) = ap (λ z. r.ext ++ z) (chain_extents-eq c)

all_extents-eq : (tab : List (List Rec)) → all_extents tab ≡ extents_of (flat tab)
unfolding all_extents flat
all_extents-eq [] = refl
all_extents-eq (c ∷ cs) =
    rw (chain_extents-eq c, all_extents-eq cs) (sym (extents_of-append c (flat cs)))

-- What does not depend on the order of the extents.
InFile-perm :
    (file_end : ℕ) {xs ys : List Extent} → Permᴰ xs ys → InFile file_end ys → InFile file_end xs
InFile-perm fe Permᴰ.nil h = h
InFile-perm fe (Permᴰ.cons e p) h = (rw e h.0, rw e h.1, InFile-perm fe p h.2)
InFile-perm fe (Permᴰ.swap e q) h = (rw e h.2.0, rw e h.2.1, (rw q h.0, rw q h.1, h.2.2))
InFile-perm fe (Permᴰ.trans p q) h = InFile-perm fe p (InFile-perm fe q h)

NonEmpty-perm : {xs ys : List Extent} → Permᴰ xs ys → NonEmpty ys → NonEmpty xs
NonEmpty-perm Permᴰ.nil h = h
NonEmpty-perm (Permᴰ.cons e p) h = (rw e h.0, NonEmpty-perm p h.1)
NonEmpty-perm (Permᴰ.swap e q) h = (rw e h.1.0, (rw q h.0, h.1.1))
NonEmpty-perm (Permᴰ.trans p q) h = NonEmpty-perm p (NonEmpty-perm q h)

uses-perm : {xs ys : List Extent} (x : ℕ) → Permᴰ xs ys → uses xs x ≡ uses ys x
uses-perm x Permᴰ.nil = refl
uses-perm x (Permᴰ.cons e p) = rw e (omega (arith, uses-perm x p))
uses-perm x (Permᴰ.swap e q) = rw (e, q) (omega arith)
uses-perm x (Permᴰ.trans p q) = uses-perm x p ∙ uses-perm x q

uses-in_holes : (es : List Extent) (x : ℕ) → in_holes es x ≡ ltb 0 (uses es x)
uses-in_holes [] x = ground arith
uses-in_holes (e ∷ es) x = ground (arith, uses-in_holes es x)

uses-Follow : (cur : ℕ) (es : List Extent) (x : ℕ) → Follow cur es → uses es x ≤ 1
uses-Follow cur [] x f = omega arith
uses-Follow cur (e ∷ es) x f = ground (
  arith,
  uses-Follow (e.foff + e.len) es x f.1,
  in_holes-Follow (e.foff + e.len) es x f.1,
  uses-in_holes es x,
)

last_end-uses :
    (cur : ℕ) (es : List Extent) (x : ℕ) → Follow cur es → 0 < uses es x → x < last_end cur es
last_end-uses cur [] x f h = absurd (omega arith)
last_end-uses cur (e ∷ es) x f h = elim (Bool-cases (ltb 0 (uses es x))) [
  | inl later ↦ last_end-uses (e.foff + e.len) es x f.1 (ground arith)
  | inr here ↦ ground (arith, here, end_le (e.foff + e.len) es f.1)
]
  where
    end_le : (c : ℕ) (es : List Extent) → Follow c es → c ≤ last_end c es
    end_le c [] w = omega arith
    end_le c (e ∷ es) w = omega (arith, end_le (e.foff + e.len) es w.1)

-- Sorted extents that share no byte follow each other.
Follow-sorted :
    (cur : ℕ) (es : List Extent)
    → InOrder es
    → NonEmpty es
    → ((x : ℕ) → uses es x ≤ 1)
    → ((e : Extent) (t : List Extent) → es ≡ e ∷ t → cur ≤ e.foff)
    → Follow cur es
Follow-sorted cur [] o n u first = tt
Follow-sorted cur (a ∷ []) o n u first = (first a [] refl, tt)
Follow-sorted cur (a ∷ (b ∷ es)) o n u first =
    let order : a.foff ≤ b.foff = unfold cmp_ext in ground (arith, o.0) in
    let apart : a.foff + a.len ≤ b.foff = ground (arith, u b.foff, n.0, n.1.0, order) in
    (
      first a (b ∷ es) refl,
      Follow-sorted (a.foff + a.len) (b ∷ es) o.1 n.1 (λ x. omega (arith, u x))
          (λ e t q. head_le apart e t q),
    )
  where
    head_le :
        a.foff + a.len ≤ b.foff
        → (e : Extent) (t : List Extent) → (b ∷ es) ≡ e ∷ t
        → a.foff + a.len ≤ e.foff
    head_le h e t q = ground arith

fill_gaps-ok :
    (s : Alloc) (cur file_end : ℕ) (es : List Extent)
    → file_end < 2 ^ 64
    → InFile file_end es
    → Follow cur es
    → (t : Alloc) × (fill_gaps s cur es ≡ ok t)
unfolding fill_gaps
fill_gaps-ok s cur file_end [] b h f = (s, refl)
fill_gaps-ok s cur file_end (e ∷ es) b h f =
    let q = +₆₄-eq e.foff e.len (omega arith) in
    let s' =
      if ltb cur e.foff
      then free_extents s (record { foff = cur; len = e.foff -₆₄ cur } ∷ [])
      else s in
    let (t, r) = fill_gaps-ok s' (e.foff + e.len) file_end es b h.2 f.1 in
    let first : ltb e.foff cur ≡ false = ground arith in (t, rw (first, q) r)

-- What reopening gives when the table is accepted.
pub record Restores (file_end : ℕ) (used : List Extent) (t : Alloc) : Type 0 where
  pub sound : IsSound t
  pub once : (x : ℕ) → uses used x ≤ 1
  pub gaps :
      (x y : ℕ) → super_size ≤ x → x ≤ y → 0 < uses used y → is_free t x ≡ not (in_holes used x)
  pub after :
      (x : ℕ)
      → super_size ≤ x
      → x < file_end
      → ((y : ℕ) → x ≤ y → uses used y ≡ 0)
      → is_free t x ≡ false

-- Every outcome of the rebuild.
pub data Rebuilds (file_end : ℕ) (used : List Extent) (r : Result Alloc) : Type 0 where
  accepted : (t : Alloc) → r ≡ ok t → Restores file_end used t → Rebuilds file_end used r
  overlap : (x : ℕ) → r ≡ fail corrupt → 1 < uses used x → Rebuilds file_end used r

fill_gaps-cases :
    (s : Alloc) (cur : ℕ) (es : List Extent)
    → ((t : Alloc) × (fill_gaps s cur es ≡ ok t)) ⊎ (fill_gaps s cur es ≡ fail corrupt)
unfolding fill_gaps
fill_gaps-cases s cur [] = inl (s, refl)
fill_gaps-cases s cur (e ∷ es) =
    let s' =
      if ltb cur e.foff
      then free_extents s (record { foff = cur; len = e.foff -₆₄ cur } ∷ [])
      else s in
    let rest = fill_gaps-cases s' (e.foff +₆₄ e.len) es in
    elim (Bool-cases (ltb e.foff cur)) [ inl back ↦ rw back (inr refl) | inr forth ↦ rw forth rest ]

-- Sorted extents follow each other, or two of them share a byte.
Follow-or-shared :
    (a : Extent) (es : List Extent)
    → InOrder (a ∷ es)
    → NonEmpty (a ∷ es)
    → Follow (a.foff + a.len) es ⊎ ((x : ℕ) × (1 < uses (a ∷ es) x))
Follow-or-shared a [] o n = inl tt
Follow-or-shared a (b ∷ es) o n =
    let order : a.foff ≤ b.foff = unfold cmp_ext in ground (arith, o.0) in
    let rest = Follow-or-shared b es o.1 n.1 in
    elim (Bool-cases (ltb b.foff (a.foff + a.len))) [
      | inl shared ↦ inr (b.foff, ground (arith, shared, order, n.1.0))
      | inr apart ↦ elim rest [
        | inl f ↦ inl (ground arith, f)
        | inr (x, u) ↦ inr (x, omega (arith, u))
      ]
    ]

last_end-used :
    (cur : ℕ) (es : List Extent)
    → NonEmpty es
    → Follow cur es
    → (last_end cur es ≡ cur) ⊎ ((0 < uses es (last_end cur es - 1)) × (0 < last_end cur es))
last_end-used cur [] n f = inl refl
last_end-used cur (e ∷ es) n f = elim (last_end-used (e.foff + e.len) es n.1 f.1) [
  | inl same ↦ inr (rw same (ground (arith, n.0)), omega (arith, same, n.0))
  | inr (u, p) ↦ inr (omega (arith, u), p)
]

module _ (file_end : ℕ) (s : Alloc) (sorted used : List Extent) (perm : Permᴰ sorted used)
    (re : Reopened file_end s) (inside : InFile file_end used) (some_len : NonEmpty used) where
  start : Alloc
  start = record s { grants = later_grants s.grants }

  sorted-Restores :
      (t : Alloc) → fill_gaps start super_size sorted ≡ ok t → Restores file_end used t
  unfolding start
  sorted-Restores t e =
      let inside' = InFile-perm file_end perm inside in
      let n' = NonEmpty-perm perm some_len in
      let f = fill_gaps-Follow start t super_size file_end sorted re.word inside' e in
      let r =
        fill_gaps-Rebuilt file_end super_size sorted start t re.word (omega arith) inside' n'
          (Reopened-State file_end s re) e in
      record {
        sound = r.sound;
        once = λ x. rw (← uses-perm x perm) (uses-Follow super_size sorted x f);
        gaps = λ x y l h u.
            let u' = last_end-uses super_size sorted y f (rw (uses-perm y perm) u) in
            r.gaps x l (omega arith)
            ∙ rw (uses-in_holes sorted x, uses-in_holes used x, uses-perm x perm) refl;
        after = λ x l h none_left.
            r.after x
              (elim (last_end-used super_size sorted n' f) [
                | inl same ↦ omega (arith, same)
                | inr (u, p) ↦ ground (
                  arith,
                  none_left (last_end super_size sorted - 1),
                  uses-perm (last_end super_size sorted - 1) perm,
                  u,
                  p,
                )
              ])
              h;
      }

  sorted-shared :
      InOrder sorted
      → fill_gaps start super_size sorted ≡ fail corrupt
      → (x : ℕ) × (1 < uses used x)
  sorted-shared o e =
      let n' = NonEmpty-perm perm some_len in
      let inside' = InFile-perm file_end perm inside in
      shared sorted o n' inside' e (λ x. uses-perm x perm)
    where
      shared :
          (es : List Extent)
          → InOrder es
          → NonEmpty es
          → InFile file_end es
          → fill_gaps start super_size es ≡ fail corrupt
          → ((x : ℕ) → uses es x ≡ uses used x)
          → (x : ℕ) × (1 < uses used x)
      shared [] o n i e p = unfold fill_gaps in cc
      shared (a ∷ es) o n i e p = elim (Follow-or-shared a es o n) [
        | inr (x, u) ↦ (x, omega (arith, u, p x))
        | inl f ↦
            let (t, q) = fill_gaps-ok start super_size file_end (a ∷ es) re.word i (i.0, f) in
            cc (e, q)
      ]

empty-Restores :
    (file_end : ℕ) (s : Alloc) (used : List Extent)
    → Reopened file_end s
    → (length used == 0) ≡ true
    → Restores file_end used s
empty-Restores file_end s [] re e = record {
  sound = record {
    sorted = rw (re.no_holes, re.end) (omega (arith, re.room));
    word = rw re.end re.word;
  };
  once = λ x. omega arith;
  gaps = λ x y l h u. absurd (omega arith);
  after = λ x l h none_left. rw (re.no_holes, re.end) (ground arith);
}
empty-Restores file_end s (u ∷ us) re e = ground arith

all_extents-Rebuilds :
    (qsort : List Extent → List Extent) (file_end : ℕ) (s : Alloc) (tab : List (List Rec))
    → IsSort qsort
    → Reopened file_end s
    → InFile file_end (all_extents tab)
    → NonEmpty (all_extents tab)
    → Rebuilds file_end (all_extents tab) (rebuild_free_list qsort s tab)
unfolding rebuild_free_list
all_extents-Rebuilds qsort file_end s tab sort re inside n =
    let used = all_extents tab in
    let sorted = qsort used in
    let p = sort.permutes used in
    let given : granted s.grants ≡ true = rw re.memory refl in
    elim (Bool-cases (length used == 0)) [
      | inl none_there ↦
          rw none_there (accepted s refl (empty-Restores file_end s used re none_there))
      | inr some_there ↦
          elim (fill_gaps-cases (record s { grants = later_grants s.grants }) super_size sorted) [
            | inl (t, e) ↦
                rw (some_there, given, e)
                  (accepted t refl
                    (sorted-Restores file_end s sorted used p re inside n t (unfold start in e)))
            | inr e ↦
                let (x, u) =
                  sorted-shared file_end s sorted used p re inside n (sort.sorts used)
                    (unfold start in e) in
                rw (some_there, given, e) (overlap x refl u)
          ]
    ]

-- Take a store as it is reopened (no holes, not in teardown, memory at hand, the end of the file a
-- 64-bit offset past the superblock), records whose extents are not empty and lie in the file, and
-- any sorting function. Then `rebuild_free_list` either succeeds with a sound free list, no two
-- extents sharing a byte, every byte before a used one free exactly if no extent has it, and no byte
-- of the file after the last used one free; or it reports LS_ERR_CORRUPT, and two extents share a
-- byte.
pub rebuild_free_list-Rebuilds :
    (qsort : List Extent → List Extent) (file_end : ℕ) (s : Alloc) (tab : List (List Rec))
    → IsSort qsort
    → Reopened file_end s
    → InFile file_end (extents_of (flat tab))
    → NonEmpty (extents_of (flat tab))
    → Rebuilds file_end (extents_of (flat tab)) (rebuild_free_list qsort s tab)
rebuild_free_list-Rebuilds qsort file_end s tab sort re inside n =
    let e = all_extents-eq tab in
    rw (← e) (all_extents-Rebuilds qsort file_end s tab sort re (rw e inside) (rw e n))
