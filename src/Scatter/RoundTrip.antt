-- ===== src/Scatter/RoundTrip.antt =====
-- `ls_scatter` at a place: a transfer out and back in.
use libspill.Base.{
  ℕ, zero, suc, ◌+◌, ◌-◌, ◌≤◌, ◌<◌, ◌≡◌, refl, ◌⊎◌, inr, Option, none, some, List, [], ◌∷◌, ◌++◌,
  arith, length, take, drop, get_or, ap, ◌∙◌,
}
use libspill.Alloc.{Extent}
use libspill.Status.{Status, done, Result, ok}
use libspill.Os.{Os, IsPosix}
use libspill.Io.ReadLoop.{list_ext}
use libspill.Scatter.{Place, scatter_out, scatter_in, scatter_write, scatter_read, copy_in}
use libspill.Scatter.Write.{logical, capacity, Separate, Scattered, scatter_out-Scattered}
use libspill.Scatter.Read.{scatter_in-Gathered}

take-length-append : (bs xs : List ℕ) → take (length bs) (bs ++ xs) ≡ bs
take-length-append [] xs = refl
take-length-append (b ∷ bs) xs = ap (λ t. b ∷ t) (take-length-append bs xs)

drop-copy_in :
    (off : ℕ) (bs mem : List ℕ)
    → off ≤ length mem
    → take (length bs) (drop off (copy_in off bs mem)) ≡ bs
unfolding copy_in
drop-copy_in zero bs mem h = take-length-append bs _
drop-copy_in (suc off) bs [] h = absurd (omega arith)
drop-copy_in (suc off) bs (x ∷ mem) h =
    let e : suc off + length bs ≡ suc (off + length bs) = omega arith in
    rw e (drop-copy_in off bs mem (omega arith))

module _ (os : Os) (posix : IsPosix os) where
  -- Extents: what was written is read back, wherever the extents lie in the file.
  pub scatter_in-scatter_out :
      (f f1 f2 : os.File) (ext : List Extent) (off : ℕ) (bs cs : List ℕ)
      → Separate ext
      → scatter_out os f ext 0 off bs ≡ (f1, some done)
      → scatter_in os f1 ext 0 off (length bs) ≡ (f2, some (ok cs))
      → cs ≡ bs
  scatter_in-scatter_out f f1 f2 ext off bs cs s w r =
      let a = scatter_out-Scattered os posix f ext 0 off bs f1 (inr (omega arith)) s w in
      let b = scatter_in-Gathered os posix f1 ext 0 off (length bs) f2 cs (inr (omega arith)) r in
      list_ext cs bs b.len (λ i l. b.bytes i l ∙ back i l a b.fits)
    where
      back :
          (i : ℕ)
          → i < length bs
          → Scattered os posix f ext 0 off bs f1
          → (length bs ≡ 0) ⊎ (off - 0 + length bs ≤ capacity ext)
          → logical ext (os.byte_at f1) (off - 0 + i) ≡ get_or bs i 0
      back i l a fits =
          let p : 0 + (off - 0 + i) - off ≡ i = omega arith in
          a.inside (off - 0 + i) (ground (arith, fits, l)) ∙ rw p (ground (arith, l))

  -- The range lies in the record's memory, if it is resident; else its extents are apart.
  abbrev pub IsPlace : Place → ℕ → Type 0
  IsPlace p hi = elim p.mem [ none ↦ Separate p.ext | some m ↦ hi ≤ length m ]

  read_back :
      (m : Option (List ℕ)) (ext : List Extent) (f f1 f2 : os.File) (off : ℕ) (b : ℕ)
      (bs cs : List ℕ) (m1 : Option (List ℕ))
      → IsPlace (record { mem = m; ext = ext }) (off + length (b ∷ bs))
      → scatter_write os f (record { mem = m; ext = ext }) off (b ∷ bs) ≡ (f1, m1, some done)
      → scatter_read os f1 (record { mem = m1; ext = ext }) off (length (b ∷ bs))
        ≡ (f2, some (ok cs))
      → cs ≡ b ∷ bs
  unfolding scatter_write scatter_read
  read_back none ext f f1 f2 off b bs cs m1 v w r =
      let file = ap (λ (p : os.File × Option (List ℕ) × Option Status). p.0) w in
      let mem : none ≡ m1 = ap (λ (p : os.File × Option (List ℕ) × Option Status). p.1) w in
      let st : (scatter_out os f ext 0 off (b ∷ bs)).1 ≡ some done =
        ap (λ (p : os.File × Option (List ℕ) × Option Status). p.2) w in
      let r' = rw (← mem, scatter_read) at r in
      scatter_in-scatter_out f f1 f2 ext off (b ∷ bs) cs v (λ i. (file i, st i)) r'
  read_back (some m) ext f f1 f2 off b bs cs m1 v w r =
      let mem : some (copy_in off (b ∷ bs) m) ≡ m1 =
        ap (λ (p : os.File × Option (List ℕ) × Option Status). p.1) w in
      let r' = rw (← mem, scatter_read) at r in
      let q : some (ok (take (length (b ∷ bs)) (drop off (copy_in off (b ∷ bs) m))))
          ≡ some (ok cs) =
        ap (λ (p : os.File × Option (Result (List ℕ))). p.1) r' in
      cc (drop-copy_in off (b ∷ bs) m (omega arith))

  -- For a record that is resident with room for the range, or whose extents are pairwise disjoint: if
  -- `ls_scatter` reports success for a write of a buffer and then for a read of the same range, the
  -- read returns the buffer.
  pub scatter_read-scatter_write :
      (f f1 f2 : os.File) (p : Place) (off : ℕ) (bs cs : List ℕ) (m1 : Option (List ℕ))
      → IsPlace p (off + length bs)
      → scatter_write os f p off bs ≡ (f1, m1, some done)
      → scatter_read os f1 (record p { mem = m1 }) off (length bs) ≡ (f2, some (ok cs))
      → cs ≡ bs
  unfolding scatter_read
  scatter_read-scatter_write f f1 f2 p off [] cs m1 v w r =
      let q : some (ok []) ≡ some (ok cs) =
        ap (λ (p : os.File × Option (Result (List ℕ))). p.1) r in
      cc
  scatter_read-scatter_write f f1 f2 p off (b ∷ bs) cs m1 v w r =
      read_back p.mem p.ext f f1 f2 off b bs cs m1 v w r
