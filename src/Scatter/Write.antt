-- ===== src/Scatter/Write.antt =====
-- `ls_scatter` writing to extents, as a write to the record's logical bytes.
use Prim.Native.Nat.{min}
use libspill.Base.{
  ℕ, zero, suc, ◌+◌, ◌-◌, ◌≤◌, ◌<◌, ◌≡◌, refl, ◌⊎◌, inl, inr, true, false, Option, none, some, List,
  [], ◌∷◌, arith, ltb, leb, if◌then◌else◌, Bool-cases, length, take, drop, get_or, length-take,
  length-drop, ap, ◌∙◌,
}
use libspill.Alloc.{Extent}
use libspill.Alloc.Shape.{in_range, in_holes}
use libspill.Status.{Status, done, errno}
use libspill.Os.{Os, IsPosix, eio}
use libspill.Io.{ls_pwrite_all}
use libspill.Io.Retry.{Wrote, pwrite_all-Wrote, get_or-drop, get_or-take}
use libspill.Scatter.{and_then, scatter_out}

-- the record's bytes, as its extents in logical order hold them in the file `m`
unfoldable pub logical : List Extent → (ℕ → ℕ) → ℕ → ℕ
logical [] m p = 0
logical (e ∷ es) m p = if ltb p e.len then m (e.foff + p) else logical es m (p - e.len)

unfoldable pub capacity : List Extent → ℕ
capacity [] = 0
capacity (e ∷ es) = e.len + capacity es

-- No two of the extents share a byte.
abbrev pub Separate : List Extent → Type 0
Separate [] = Unit {0}
Separate (e ∷ es) = ((x : ℕ) → in_range e.foff e.len x ≡ true → in_holes es x ≡ false) × Separate es

pub logical-ext :
    (es : List Extent) (m m' : ℕ → ℕ) (p : ℕ)
    → p < capacity es
    → ((x : ℕ) → in_holes es x ≡ true → m' x ≡ m x)
    → logical es m' p ≡ logical es m p
unfolding logical capacity
logical-ext [] m m' p l h = refl
logical-ext (e ∷ es) m m' p l h = elim (Bool-cases (ltb p e.len)) [
  | inl here ↦ rw here (h (e.foff + p) (ground arith))
  | inr there ↦
      rw there (logical-ext es m m' (p - e.len) (ground arith) (λ x q. h x (ground (arith, q))))
]

module _ (os : Os) (posix : IsPosix os) where
  -- The buffer `bs` written at `pos`, where the extents start at logical offset `base`.
  pub record Scattered (f : os.File) (ext : List Extent) (base pos : ℕ) (bs : List ℕ) (f' : os.File)
      : Type 0 where
    pub outside : (x : ℕ) → in_holes ext x ≡ false → os.byte_at f' x ≡ os.byte_at f x
    pub inside :
        (p : ℕ)
        → p < capacity ext
        → logical ext (os.byte_at f') p ≡ (
            if in_range pos (length bs) (base + p)
            then get_or bs (base + p - pos) 0
            else logical ext (os.byte_at f) p)
    pub fits : (bs ≡ []) ⊎ (pos + length bs ≤ base + capacity ext)

  nothing-Scattered :
      (f f' : os.File) (ext : List Extent) (base pos : ℕ) (bs : List ℕ)
      → bs ≡ []
      → f ≡ f'
      → Scattered f ext base pos bs f'
  nothing-Scattered f f' ext base pos [] z e =
      rw (← e) (record { outside = λ x q. refl; inside = λ p l. ground arith; fits = inl refl })
  nothing-Scattered f f' ext base pos (b ∷ bs) z e = cc

  pub and_then-done :
      (r : os.File × Option Status) (k : os.File → os.File × Option Status) (f' : os.File)
      → and_then os r k ≡ (f', some done)
      → (g : os.File) × (r ≡ (g, some done)) × (k g ≡ (f', some done))
  and_then-done (g, some done) k f' e = (g, refl, e)
  and_then-done (g, none) k f' e =
      let q : none ≡ some done = ap (λ (p : os.File × Option Status). p.1) e in cc
  and_then-done (g, some st) k f' e =
      let q : some st ≡ some done = ap (λ (p : os.File × Option Status). p.1) e in cc

  drop-all : (k : ℕ) (xs : List ℕ) → length xs ≤ k → drop k xs ≡ []
  drop-all zero [] h = refl
  drop-all zero (x ∷ xs) h = absurd (omega arith)
  drop-all (suc k) [] h = refl
  drop-all (suc k) (x ∷ xs) h = drop-all k xs (omega arith)

  -- One extent is passed over.
  skip-Scattered :
      (f f' : os.File) (e : Extent) (es : List Extent) (base pos : ℕ) (bs : List ℕ)
      → base + e.len ≤ pos
      → ((x : ℕ) → in_range e.foff e.len x ≡ true → in_holes es x ≡ false)
      → Scattered f es (base + e.len) pos bs f'
      → Scattered f (e ∷ es) base pos bs f'
  skip-Scattered f f' e es base pos bs l apart w = record {
    outside = λ x q. w.outside x (ground (arith, q));
    inside = λ p q.
        unfold logical capacity in
        elim (Bool-cases (ltb p e.len)) [
          | inl here ↦
              rw here
                (w.outside (e.foff + p) (apart (e.foff + p) (ground arith)) ∙ ground (arith, here))
          | inr there ↦
              let at : base + e.len + (p - e.len) ≡ base + p = ground arith in
              rw there
                (rw at at (w.inside (p - e.len) (unfold capacity in ground (arith, q, there))))
        ];
    fits = unfold capacity in ground (arith, w.fits);
  }

  -- One extent takes a chunk of the buffer, and the others the rest.
  module _ (f g f' : os.File) (e : Extent) (es : List Extent) (base pos k : ℕ) (bs : List ℕ)
      (lo : base ≤ pos) (hi : pos < base + e.len) (size : k ≡ min (base + e.len - pos) (length bs))
      (apart : (x : ℕ) → in_range e.foff e.len x ≡ true → in_holes es x ≡ false)
      (a : Wrote os posix f (take k bs) (e.foff + (pos - base)) g done)
      (w : Scattered g es (base + e.len) (pos + k) (drop k bs) f') where
    len_take : length (take k bs) ≡ k
    len_take = omega (arith, length-take k bs, size)

    chunk_outside : (x : ℕ) → in_holes (e ∷ es) x ≡ false → os.byte_at f' x ≡ os.byte_at f x
    chunk_outside x q =
        w.outside x (ground (arith, q)) ∙ a.outside x (ground (arith, q, len_take, size))

    chunk_here :
        (p : ℕ)
        → p < e.len
        → os.byte_at f' (e.foff + p) ≡ (
            if in_range pos (length bs) (base + p)
            then get_or bs (base + p - pos) 0
            else os.byte_at f (e.foff + p))
    chunk_here p l =
        let at : e.foff + p - (e.foff + (pos - base)) ≡ base + p - pos = omega arith in
        w.outside (e.foff + p) (apart (e.foff + p) (ground arith))
        ∙ a.inside refl (e.foff + p)
        ∙ rw (at, len_take) (ground (arith, size, get_or-take k bs (base + p - pos) 0))

    chunk_rest :
        (p : ℕ) → p < capacity es → logical es (os.byte_at g) p ≡ logical es (os.byte_at f) p
    chunk_rest p l =
        logical-ext es (os.byte_at f) (os.byte_at g) p l
          (λ x q. a.outside x (ground (arith, q, apart x, len_take, size)))

    chunk_there :
        (p : ℕ)
        → e.len ≤ p
        → p - e.len < capacity es
        → logical es (os.byte_at f') (p - e.len) ≡ (
            if in_range pos (length bs) (base + p)
            then get_or bs (base + p - pos) 0
            else logical es (os.byte_at f) (p - e.len))
    chunk_there p l c =
        let at : base + e.len + (p - e.len) ≡ base + p = omega arith in
        let i = rw at at (w.inside (p - e.len) c) in
        ground (
          arith,
          i,
          chunk_rest (p - e.len) c,
          length-drop k bs,
          size,
          get_or-drop k bs (base + p - (pos + k)) 0,
        )

    chunk_fits :
        (drop k bs ≡ []) ⊎ (pos + k + length (drop k bs) ≤ base + e.len + capacity es)
        → pos + length bs ≤ base + capacity (e ∷ es)
    unfolding capacity
    chunk_fits (inl z) =
        let n : length (drop k bs) ≡ 0 = ap length z in omega (arith, n, length-drop k bs, size, hi)
    chunk_fits (inr l) = omega (arith, l, length-drop k bs, size, hi)

    chunk-Scattered : Scattered f (e ∷ es) base pos bs f'
    chunk-Scattered = record {
      outside = chunk_outside;
      inside = λ p q.
          unfold logical in
          elim (Bool-cases (ltb p e.len)) [
            | inl here ↦ rw here (chunk_here p (ground arith))
            | inr there ↦
                rw there
                  (chunk_there p (ground arith) (unfold capacity in ground (arith, q, there)))
          ];
      fits = inr (chunk_fits w.fits);
    }

  pub written :
      (f : os.File) (bs : List ℕ) (off : ℕ) (g : os.File)
      → ls_pwrite_all os f bs off ≡ (g, some done)
      → Wrote os posix f bs off g done
  unfolding ls_pwrite_all
  written f bs off g e = pwrite_all-Wrote os posix _ f bs off g done e

  -- The extent loop of `ls_scatter` for a write, from the extent that starts at the record's offset
  -- `base`, at `pos` or an empty buffer, over pairwise disjoint extents: if it reports success, the
  -- record reads as the buffer in the range and as before elsewhere, no byte outside the extents
  -- changed, and the range ends inside the extents or the buffer is empty.
  pub scatter_out-Scattered :
      (f : os.File) (ext : List Extent) (base pos : ℕ) (bs : List ℕ) (f' : os.File)
      → ((bs ≡ []) ⊎ (base ≤ pos))
      → Separate ext
      → scatter_out os f ext base pos bs ≡ (f', some done)
      → Scattered f ext base pos bs f'
  unfolding scatter_out
  scatter_out-Scattered f [] base pos [] f' l s q =
      nothing-Scattered f f' [] base pos [] refl (ap (λ (p : os.File × Option Status). p.0) q)
  scatter_out-Scattered f [] base pos (b ∷ bs) f' l s q =
      let z : some (errno eio) ≡ some done = ap (λ (p : os.File × Option Status). p.1) q in cc
  scatter_out-Scattered f (e ∷ es) base pos [] f' l s q =
      nothing-Scattered f f' (e ∷ es) base pos [] refl (ap (λ (p : os.File × Option Status). p.0) q)
  scatter_out-Scattered f (e ∷ es) base pos (b ∷ bs) f' l s q =
      let lo : base ≤ pos = ground (arith, l) in
      let k = min (base + e.len - pos) (length (b ∷ bs)) in
      elim (Bool-cases (leb (base + e.len) pos)) [
        | inl past ↦ skip-Scattered f f' e es base pos (b ∷ bs) (ground arith) s.0 (
            scatter_out-Scattered f es (base + e.len) pos (b ∷ bs) f' (inr (ground arith)) s.1
              (rw past at q))
        | inr hit ↦
            let (g, wrote, rest) =
              and_then-done _ (λ h. scatter_out os h es (base + e.len) (pos + k) (drop k (b ∷ bs)))
                f' (rw hit at q) in
            let a = written f (take k (b ∷ bs)) (e.foff + (pos - base)) g wrote in
            let next : (drop k (b ∷ bs) ≡ []) ⊎ (base + e.len ≤ pos + k) =
              elim (Bool-cases (leb (length (b ∷ bs)) (base + e.len - pos))) [
                | inl last ↦ inl (drop-all k (b ∷ bs) (ground arith))
                | inr more ↦ inr (ground arith)
              ] in
            chunk-Scattered f g f' e es base pos k (b ∷ bs) lo (ground arith) refl s.0 a (
              scatter_out-Scattered g es (base + e.len) (pos + k) (drop k (b ∷ bs)) f' next s.1
                rest)
      ]
