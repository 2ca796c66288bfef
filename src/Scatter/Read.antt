-- ===== src/Scatter/Read.antt =====
-- `ls_scatter` reading from extents, as a read of the record's logical bytes; and a read that
-- follows a write of the same range.
use Prim.Native.Nat.{min}
use libspill.Base.{
  ℕ, zero, suc, ◌+◌, ◌-◌, ◌≤◌, ◌<◌, ◌≡◌, refl, ◌⊎◌, inl, inr, true, false, Option, none, some, List,
  [], ◌∷◌, ◌++◌, arith, ltb, leb, Bool-cases, length, get_or, length-append, ap, ◌∙◌,
}
use libspill.Alloc.{Extent}
use mathlib.Core.Path.{fun_ext}
use libspill.Status.{errno, Result, ok, fail}
use libspill.Os.{Os, IsPosix, eio}
use libspill.Io.{ls_pread_all, prepend}
use libspill.Io.Retry.{ReadBack, get_or-append_left, get_or-append_right}
use libspill.Io.ReadLoop.{pread_all-ReadBack}
use libspill.Scatter.{and_append, scatter_in}
use libspill.Scatter.Write.{logical, capacity}

module _ (os : Os) (posix : IsPosix os) where
  prepend-ok :
      (xs : List ℕ) (p : os.File × Option (Result (List ℕ))) (f' : os.File) (bs : List ℕ)
      → prepend os xs p ≡ (f', some (ok bs))
      → (ys : List ℕ) × (p ≡ (f', some (ok ys))) × (bs ≡ xs ++ ys)
  prepend-ok xs (g, some (ok ys)) f' bs e =
      let a : g ≡ f' = ap (λ (p : os.File × Option (Result (List ℕ))). p.0) e in
      let b : some (ok (xs ++ ys)) ≡ some (ok bs) =
        ap (λ (p : os.File × Option (Result (List ℕ))). p.1) e in
      (ys, rw a refl, cc)
  prepend-ok xs (g, some (fail st)) f' bs e =
      let b : some (fail st) ≡ some (ok bs) =
        ap (λ (p : os.File × Option (Result (List ℕ))). p.1) e in
      cc
  prepend-ok xs (g, none) f' bs e =
      let b : none ≡ some (ok bs) = ap (λ (p : os.File × Option (Result (List ℕ))). p.1) e in cc

  and_append-ok :
      (r : os.File × Option (Result (List ℕ))) (k : os.File → os.File × Option (Result (List ℕ)))
      (f' : os.File) (bs : List ℕ)
      → and_append os r k ≡ (f', some (ok bs))
      → (g : os.File) × (xs : List ℕ) × (ys : List ℕ) × (r ≡ (g, some (ok xs)))
        × (k g ≡ (f', some (ok ys)))
        × (bs ≡ xs ++ ys)
  and_append-ok (g, some (ok xs)) k f' bs e =
      let (ys, a, b) = prepend-ok xs (k g) f' bs e in (g, xs, ys, refl, a, b)
  and_append-ok (g, some (fail st)) k f' bs e =
      let b : some (fail st) ≡ some (ok bs) =
        ap (λ (p : os.File × Option (Result (List ℕ))). p.1) e in
      cc
  and_append-ok (g, none) k f' bs e =
      let b : none ≡ some (ok bs) = ap (λ (p : os.File × Option (Result (List ℕ))). p.1) e in cc

  -- `n` bytes gathered from logical offset `at` of the extents.
  pub record Gathered (f : os.File) (ext : List Extent) (at n : ℕ) (f' : os.File) (bs : List ℕ)
      : Type 0 where
    pub same : (x : ℕ) → os.byte_at f' x ≡ os.byte_at f x
    pub len : length bs ≡ n
    pub bytes : (i : ℕ) → i < n → get_or bs i 0 ≡ logical ext (os.byte_at f) (at + i)
    pub fits : (n ≡ 0) ⊎ (at + n ≤ capacity ext)

  none-Gathered :
      (f f' : os.File) (ext : List Extent) (at : ℕ) (bs : List ℕ)
      → ◌≡◌ {A = os.File × Option (Result (List ℕ))} (f, some (ok [])) (f', some (ok bs))
      → Gathered f ext at 0 f' bs
  none-Gathered f f' ext at bs e =
      let a : f ≡ f' = ap (λ (p : os.File × Option (Result (List ℕ))). p.0) e in
      let b : some (ok []) ≡ some (ok bs) =
        ap (λ (p : os.File × Option (Result (List ℕ))). p.1) e in
      let z : [] ≡ bs = cc in
      rw (← a, ← z)
        (record {
          same = λ x. refl;
          len = refl;
          bytes = λ i l. absurd (omega arith);
          fits = inl refl;
        })

  read_once :
      (f : os.File) (n off : ℕ) (g : os.File) (bs : List ℕ)
      → ls_pread_all os f n off ≡ (g, some (ok bs))
      → ReadBack os posix f n off g (ok bs)
  unfolding ls_pread_all
  read_once f n off g bs e = pread_all-ReadBack os posix _ f n off g (ok bs) e

  module _ (f g f' : os.File) (e : Extent) (es : List Extent) (at k n : ℕ) (xs ys : List ℕ)
      (hi : at < e.len) (size : k ≡ min (e.len - at) n)
      (a : ReadBack os posix f k (e.foff + at) g (ok xs))
      (w : Gathered g es (at + k - e.len) (n - k) f' ys)
      (next : (n - k ≡ 0) ⊎ (e.len ≤ at + k)) where
    chunk_bytes : (i : ℕ) → i < n → get_or (xs ++ ys) i 0 ≡ logical (e ∷ es) (os.byte_at f) (at + i)
    unfolding logical
    chunk_bytes i l =
        let (len, here) = a.bytes xs refl in
        elim (Bool-cases (ltb i k)) [
          | inl early ↦
              let p : e.foff + at + i ≡ e.foff + (at + i) = omega arith in
              let inside : ltb (at + i) e.len ≡ true = ground (arith, early, size) in
              rw inside (
                get_or-append_left xs ys i 0 (ground (arith, len, early))
                ∙ here i (ground (arith, early))
                ∙ ap (os.byte_at f) p)
          | inr late ↦
              let p : at + k - e.len + (i - k) ≡ at + i - e.len =
                ground (arith, late, next, size) in
              let outside : ltb (at + i) e.len ≡ false = ground (arith, late, next, size) in
              rw outside (
                get_or-append_right xs ys i (i - k) 0 (ground (arith, len, late))
                ∙ w.bytes (i - k) (ground (arith, late))
                ∙ rw (p, fun_ext a.same) refl)
        ]

    chunk-Gathered : Gathered f (e ∷ es) at n f' (xs ++ ys)
    chunk-Gathered =
        let (len, here) = a.bytes xs refl in
        record {
          same = λ x. w.same x ∙ a.same x;
          len = omega (arith, length-append xs ys, len, w.len, size);
          bytes = chunk_bytes;
          fits = inr (unfold capacity in ground (arith, w.fits, size, hi, next));
        }

  skip-Gathered :
      (f f' : os.File) (e : Extent) (es : List Extent) (at n : ℕ) (bs : List ℕ)
      → e.len ≤ at
      → Gathered f es (at - e.len) n f' bs
      → Gathered f (e ∷ es) at n f' bs
  skip-Gathered f f' e es at n bs l w = record {
    same = w.same;
    len = w.len;
    bytes = λ i h.
        let p : at - e.len + i ≡ at + i - e.len = omega arith in
        let outside : ltb (at + i) e.len ≡ false = ground arith in
        unfold logical in rw outside (rw p at (w.bytes i h));
    fits = unfold capacity in ground (arith, w.fits);
  }

  -- The extent loop of `ls_scatter` for a read, from the extent that starts at the record's offset
  -- `base`, at `pos` or of no bytes: if it reports success, it returns as many bytes as were asked
  -- for, those of the record in the range, no byte of the file changed, and the range ends inside the
  -- extents or is empty.
  pub scatter_in-Gathered :
      (f : os.File) (ext : List Extent) (base pos n : ℕ) (f' : os.File) (bs : List ℕ)
      → ((n ≡ 0) ⊎ (base ≤ pos))
      → scatter_in os f ext base pos n ≡ (f', some (ok bs))
      → Gathered f ext (pos - base) n f' bs
  unfolding scatter_in
  scatter_in-Gathered f [] base pos zero f' bs l q = none-Gathered f f' [] (pos - base) bs q
  scatter_in-Gathered f [] base pos (suc n) f' bs l q =
      let z : some (fail (errno eio)) ≡ some (ok bs) =
        ap (λ (p : os.File × Option (Result (List ℕ))). p.1) q in
      cc
  scatter_in-Gathered f (e ∷ es) base pos zero f' bs l q =
      none-Gathered f f' (e ∷ es) (pos - base) bs q
  scatter_in-Gathered f (e ∷ es) base pos (suc n) f' bs l q =
      let lo : base ≤ pos = ground (arith, l) in
      let k = min (base + e.len - pos) (suc n) in
      elim (Bool-cases (leb (base + e.len) pos)) [
        | inl past ↦
            let at : pos - (base + e.len) ≡ pos - base - e.len = omega arith in
            let w =
              scatter_in-Gathered f es (base + e.len) pos (suc n) f' bs (inr (ground arith))
                (rw past at q) in
            skip-Gathered f f' e es (pos - base) (suc n) bs (ground arith) (rw at at w)
        | inr hit ↦
            let (g, xs, ys, first, rest, whole) =
              and_append-ok (ls_pread_all os f k (e.foff + (pos - base)))
                (λ h. scatter_in os h es (base + e.len) (pos + k) (suc n - k)) f' bs
                (rw hit at q) in
            let next : (suc n - k ≡ 0) ⊎ (base + e.len ≤ pos + k) =
              elim (Bool-cases (leb (suc n) (base + e.len - pos))) [
                | inl last ↦ inl (ground arith)
                | inr more ↦ inr (ground arith)
              ] in
            let at : pos + k - (base + e.len) ≡ pos - base + k - e.len = omega (arith, lo) in
            let w = scatter_in-Gathered g es (base + e.len) (pos + k) (suc n - k) f' ys next rest in
            rw whole (
              chunk-Gathered f g f' e es (pos - base) k (suc n) xs ys (ground (arith, hit, lo))
                (omega (arith, lo)) (read_once f k (e.foff + (pos - base)) g xs first) (rw at at w)
                (ground (arith, next, lo)))
      ]
