-- ===== src/Scatter/Touch.antt =====
-- However a write over extents ends, it changes no byte outside the extents, and none of the
-- record's bytes outside the range.
use Prim.Native.Nat.{min}
use libspill.Base.{
  ℕ, zero, suc, ◌+◌, ◌-◌, ◌≤◌, ◌≡◌, refl, ◌⊎◌, inl, inr, true, false, List, [], ◌∷◌, arith, ltb,
  leb, Bool-cases, length, take, drop, length-take, length-drop, ◌∙◌,
}
use libspill.Alloc.{Extent}
use libspill.Alloc.Shape.{in_range, in_holes}
use libspill.Os.{Os, IsPosix}
use libspill.Io.{ls_pwrite_all}
use libspill.Zero.Outside.{and_then-Holds, ls_pwrite_all-outside}
use libspill.Scatter.{scatter_out}
use libspill.Scatter.Write.{logical, Separate}

-- The bytes of a record are those of its extents, past which it reads as zeros.
pub logical-same :
    (es : List Extent) (m m' : ℕ → ℕ) (p : ℕ)
    → ((x : ℕ) → in_holes es x ≡ true → m' x ≡ m x)
    → logical es m' p ≡ logical es m p
unfolding logical
logical-same [] m m' p h = refl
logical-same (e ∷ es) m m' p h = elim (Bool-cases (ltb p e.len)) [
  | inl here ↦ rw here (h (e.foff + p) (ground arith))
  | inr there ↦ rw there (logical-same es m m' (p - e.len) (λ x q. h x (ground (arith, q))))
]

pub drop-past : (k : ℕ) (bs : List ℕ) → length bs ≤ k → drop k bs ≡ []
drop-past zero [] l = refl
drop-past zero (b ∷ bs) l = absurd (omega arith)
drop-past (suc k) [] l = refl
drop-past (suc k) (b ∷ bs) l = drop-past k bs (omega arith)

module _ (os : Os) (posix : IsPosix os) where
  pub record Touches (f : os.File) (ext : List Extent) (base pos n : ℕ) (g : os.File) : Type 0 where
    pub outside : (x : ℕ) → in_holes ext x ≡ false → os.byte_at g x ≡ os.byte_at f x
    pub others :
        (p : ℕ)
        → in_range pos n (base + p) ≡ false
        → logical ext (os.byte_at g) p ≡ logical ext (os.byte_at f) p

  nothing-Touches : (f : os.File) (ext : List Extent) (base pos n : ℕ) → Touches f ext base pos n f
  nothing-Touches f ext base pos n = record { outside = λ x q. refl; others = λ p q. refl }

  -- what the extents after the first one see
  skip-Touches :
      (f g : os.File) (e : Extent) (es : List Extent) (base pos n : ℕ)
      → Separate (e ∷ es)
      → Touches f es (base + e.len) pos n g
      → Touches f (e ∷ es) base pos n g
  unfolding logical
  skip-Touches f g e es base pos n s t = record {
    outside = λ x q. t.outside x (ground (arith, q));
    others = λ p q. elim (Bool-cases (ltb p e.len)) [
      | inl here ↦
          let y = e.foff + p in
          rw here (t.outside (e.foff + p) (s.0 (e.foff + p) (ground (arith, here))))
      | inr there ↦
          let at : base + e.len + (p - e.len) ≡ base + p = ground (arith, there) in
          rw there (t.others (p - e.len) (rw at q))
    ];
  }

  Touches-trans :
      (f g h : os.File) (ext : List Extent) (base pos n : ℕ)
      → Touches f ext base pos n g
      → Touches g ext base pos n h
      → Touches f ext base pos n h
  Touches-trans f g h ext base pos n a b = record {
    outside = λ x q. b.outside x q ∙ a.outside x q;
    others = λ p q. b.others p q ∙ a.others p q;
  }

  Touches-part :
      (f g : os.File) (ext : List Extent) (base pos n k : ℕ)
      → k ≤ n
      → Touches f ext base (pos + k) (n - k) g
      → Touches f ext base pos n g
  Touches-part f g ext base pos n k l t = record {
    outside = t.outside;
    others = λ p q. t.others p (ground (arith, q));
  }

  -- the write into the first extent
  first-Touches :
      (f : os.File) (e : Extent) (es : List Extent) (base pos : ℕ) (bs : List ℕ) (n : ℕ)
      → Separate (e ∷ es)
      → base ≤ pos
      → pos + length bs ≤ base + e.len
      → length bs ≤ n
      → Touches f (e ∷ es) base pos n (ls_pwrite_all os f bs (e.foff + (pos - base))).0
  unfolding logical
  first-Touches f e es base pos bs n s lo hi l =
      let w = ls_pwrite_all-outside os posix f bs (e.foff + (pos - base)) in
      record {
        outside = λ x q. w x (ground (arith, q));
        others = λ p q. elim (Bool-cases (ltb p e.len)) [
          | inl here ↦ rw here (w (e.foff + p) (ground (arith, q, lo)))
          | inr there ↦ rw there (
              logical-same es (os.byte_at f)
                (os.byte_at (ls_pwrite_all os f bs (e.foff + (pos - base))).0) (p - e.len)
                (λ x i. w x (ground (arith, s.0 x, i))))
        ];
      }

  pub scatter_out-Touches :
      (f : os.File) (ext : List Extent) (base pos : ℕ) (bs : List ℕ)
      → ((bs ≡ []) ⊎ (base ≤ pos))
      → Separate ext
      → Touches f ext base pos (length bs) (scatter_out os f ext base pos bs).0
  unfolding scatter_out
  scatter_out-Touches f [] base pos [] l s = nothing-Touches f [] base pos 0
  scatter_out-Touches f [] base pos (b ∷ bs) l s = nothing-Touches f [] base pos (length (b ∷ bs))
  scatter_out-Touches f (e ∷ es) base pos [] l s = nothing-Touches f (e ∷ es) base pos 0
  scatter_out-Touches f (e ∷ es) base pos (b ∷ bs) l s =
      let lo : base ≤ pos = ground (arith, l) in
      let n = length (b ∷ bs) in
      let k = min (base + e.len - pos) n in
      elim (Bool-cases (leb (base + e.len) pos)) [
        | inl past ↦ rw past (
            skip-Touches f (scatter_out os f es (base + e.len) pos (b ∷ bs)).0 e es base pos n s (
              scatter_out-Touches f es (base + e.len) pos (b ∷ bs) (inr (ground (arith, past)))
                s.1))
        | inr inside ↦
            let t : length (take k (b ∷ bs)) ≡ k = omega (arith, length-take k (b ∷ bs)) in
            let d : length (drop k (b ∷ bs)) ≡ n - k = length-drop k (b ∷ bs) in
            let next : (drop k (b ∷ bs) ≡ []) ⊎ (base + e.len ≤ pos + k) =
              elim (Bool-cases (leb (base + e.len - pos) n)) [
                | inl full ↦ inr (ground (arith, full))
                | inr short ↦ inl (drop-past k (b ∷ bs) (ground (arith, short)))
              ] in
            rw inside (
              and_then-Holds os posix (Touches f (e ∷ es) base pos n)
                (ls_pwrite_all os f (take k (b ∷ bs)) (e.foff + (pos - base)))
                (λ g. scatter_out os g es (base + e.len) (pos + k) (drop k (b ∷ bs)))
                (first-Touches f e es base pos (take k (b ∷ bs)) n s lo (ground (arith, t, inside))
                  (omega (arith, t)))
                (λ g a.
                  let h = (scatter_out os g es (base + e.len) (pos + k) (drop k (b ∷ bs))).0 in
                  let more =
                    scatter_out-Touches g es (base + e.len) (pos + k) (drop k (b ∷ bs)) next s.1 in
                  Touches-trans f g h (e ∷ es) base pos n a (
                    Touches-part g h (e ∷ es) base pos n k (omega arith)
                      (skip-Touches g h e es base (pos + k) (n - k) s (rw d at more)))))
      ]
