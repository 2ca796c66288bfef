-- ===== src/Zero/Reach.antt =====
-- After `zero_range` the file reaches to the end of the range.
use Prim.Native.Nat.{min}
use libspill.Base.{
  ℕ, zero, suc, ◌+◌, ◌-◌, ◌^◌, ◌≤◌, ◌<◌, ◌≡◌, refl, inl, inr, Bool, true, false, Option, none, some,
  List, [], ◌∷◌, arith, leb, if◌then◌else◌, ◌==◌, Bool-cases, length, drop, length-drop, replicate,
  length-replicate, +₆₄-eq, -₆₄-eq, ap,
}
use libspill.Status.{Status, done, errno, no_memory}
use libspill.Os.{Os, IsPosix, Moved, moved, Done, success, eintr, enospc}
use libspill.Io.{after_pwrite, pwrite_all, ls_pwrite_all}
use libspill.Scatter.Write.{and_then-done}
use libspill.Zero.{
  inside_file, zero_chunks, slow_zero, extend_file, after_zeroing, after_fstat, zero_range, chunk,
}

module _ (os : Os) (posix : IsPosix os) where
  Reaching : (os.File → List ℕ → ℕ → os.File × Option Status) → Type 0
  Reaching loop =
      (f : os.File) (bs : List ℕ) (off : ℕ) (f' : os.File)
      → loop f bs off ≡ (f', some done)
      → (os.size f ≤ os.size f') × (0 < length bs → off + length bs ≤ os.size f')

  after_pwrite-reach :
      (loop : os.File → List ℕ → ℕ → os.File × Option Status)
      → Reaching loop
      → (f : os.File) (b : ℕ) (bs : List ℕ) (off : ℕ) (r : os.File × Moved) (f' : os.File)
      → os.pwrite f (b ∷ bs) off ≡ r
      → after_pwrite os loop (b ∷ bs) off r ≡ (f', some done)
      → (os.size f ≤ os.size f') × (off + length (b ∷ bs) ≤ os.size f')
  unfolding after_pwrite Reaching
  after_pwrite-reach loop h f b bs off (g, Moved.failed e) f' call eq =
      let same = posix.pwrite_failed_size f g (b ∷ bs) off e call in
      elim (Bool-cases (e == eintr)) [
        | inl again ↦
            let w = h g (b ∷ bs) off f' (rw (again, after_pwrite) at eq) in
            let end = w.1 (omega arith) in (omega (arith, w.0, same), end)
        | inr error ↦
            let q = rw (error, after_pwrite) at eq in
            let e2 : some (errno e) ≡ some done = ap (λ (p : os.File × Option Status). p.1) q in
            absurd cc
      ]
  after_pwrite-reach loop h f b bs off (g, moved zero) f' call eq =
      let e2 : some (errno enospc) ≡ some done = ap (λ (p : os.File × Option Status). p.1) eq in
      absurd cc
  after_pwrite-reach loop h f b bs off (g, moved (suc k)) f' call eq =
      let fits = (posix.pwrite_moved f g (b ∷ bs) off (suc k) call).0 in
      let (grows, reach) = posix.pwrite_size f g (b ∷ bs) off (suc k) call in
      let here = reach (omega arith) in
      let w = h g (drop (suc k) (b ∷ bs)) (off + suc k) f' eq in
      let len = length-drop (suc k) (b ∷ bs) in
      (
        omega (arith, grows, w.0),
        elim (Bool-cases (leb (length (b ∷ bs)) (suc k))) [
          | inl all ↦ ground (arith, here, w.0, all)
          | inr part ↦ let far = w.1 (ground (arith, part, len)) in ground (arith, far, len, fits)
        ],
      )

  pwrite_all-reach : (fuel : ℕ) → Reaching (pwrite_all os fuel)
  unfolding pwrite_all Reaching
  pwrite_all-reach fuel f [] off f' e =
      let a : f ≡ f' = ap (λ (p : os.File × Option Status). p.0) e in
      (rw (← a) (omega arith), λ l. absurd (omega (arith, l)))
  pwrite_all-reach zero f (b ∷ bs) off f' e =
      let q : none ≡ some done = ap (λ (p : os.File × Option Status). p.1) e in absurd cc
  pwrite_all-reach (suc fuel) f (b ∷ bs) off f' e =
      let w =
        after_pwrite-reach (pwrite_all os fuel) (pwrite_all-reach fuel) f b bs off
          (os.pwrite f (b ∷ bs) off) f' refl e in
      (w.0, λ l. w.1)

  pub ls_pwrite_all-reach :
      (f : os.File) (bs : List ℕ) (off : ℕ) (f' : os.File)
      → ls_pwrite_all os f bs off ≡ (f', some done)
      → (os.size f ≤ os.size f') × (0 < length bs → off + length bs ≤ os.size f')
  unfolding ls_pwrite_all Reaching
  ls_pwrite_all-reach f bs off f' e = pwrite_all-reach (length bs + os.patience f) f bs off f' e

  -- the file is at least as long as before, and reaches to the end of the range
  abbrev Reached : os.File → ℕ → ℕ → os.File → Type 0
  Reached f off len f' = (os.size f ≤ os.size f') × (0 < len → off + len ≤ os.size f')

  zero_chunks-reach :
      (size fuel : ℕ) (f : os.File) (off len : ℕ) (f' : os.File)
      → 0 < size
      → zero_chunks os size fuel f off len ≡ (f', some done)
      → Reached f off len f'
  unfolding zero_chunks
  zero_chunks-reach size fuel f off zero f' p e =
      let a : f ≡ f' = ap (λ (p : os.File × Option Status). p.0) e in
      (rw (← a) (omega arith), λ l. absurd (omega (arith, l)))
  zero_chunks-reach size zero f off (suc len) f' p e =
      let q : none ≡ some done = ap (λ (p : os.File × Option Status). p.1) e in absurd cc
  zero_chunks-reach size (suc fuel) f off (suc len) f' p e =
      let k = min size (suc len) in
      let (g, w, rest) =
        and_then-done os posix (ls_pwrite_all os f (replicate k 0) off)
          (λ h. zero_chunks os size fuel h (off + k) (suc len - k)) f' e in
      let n = length-replicate {A = ℕ} k 0 in
      let a = ls_pwrite_all-reach f (replicate k 0) off g w in
      let here = a.1 (omega (arith, n, p)) in
      let r = zero_chunks-reach size fuel g (off + k) (suc len - k) f' p rest in
      (
        omega (arith, a.0, r.0),
        λ l. elim (Bool-cases (leb (suc len) k)) [
          | inl all ↦ ground (arith, here, r.0, n, all)
          | inr part ↦ let far = r.1 (ground (arith, part)) in ground (arith, far, part)
        ],
      )

  extend_file-reach :
      (f : os.File) (end off len : ℕ) (f' : os.File)
      → 0 < len
      → off + len < 2 ^ 64
      → end ≤ os.size f
      → extend_file os f end off len ≡ (f', some done)
      → Reached f off len f'
  unfolding extend_file
  extend_file-reach f end off len f' p b n e0 =
      let sum = +₆₄-eq off len b in
      let last = -₆₄-eq (off + len) 1 b (omega arith) in
      let e : (if leb (off + len) end
            then (f, some done)
            else ls_pwrite_all os f (0 ∷ []) (off + len - 1))
          ≡ (f', some done) =
        rw (sum, last) at e0 in
      elim (Bool-cases (leb (off + len) end)) [
        | inl fits ↦
            let a : f ≡ f' = ap (λ (p : os.File × Option Status). p.0) (rw fits at e) in
            rw (← a) (omega arith, λ l. ground (arith, fits, n))
        | inr short ↦
            let w = ls_pwrite_all-reach f (0 ∷ []) (off + len - 1) f' (rw short at e) in
            let far = w.1 (omega arith) in (w.0, λ l. omega (arith, far))
      ]

  after_zeroing-reach :
      (buffer : Bool) (g : os.File) (end off len : ℕ) (r : os.File × Done) (f' : os.File)
      → 0 < len
      → off + len < 2 ^ 64
      → end ≡ os.size g
      → os.size r.0 ≡ os.size g
      → after_zeroing os buffer end off len r ≡ (f', some done)
      → Reached g off len f'
  unfolding after_zeroing slow_zero
  after_zeroing-reach buffer g end off len (h, success) f' p b n z e =
      let w = extend_file-reach h end off len f' p b (omega (arith, n, z)) e in
      (omega (arith, w.0, z), w.1)
  after_zeroing-reach true g end off len (h, Done.failed c) f' p b n z e =
      let w = zero_chunks-reach chunk len h off len f' (omega arith) e in
      (omega (arith, w.0, z), w.1)
  after_zeroing-reach false g end off len (h, Done.failed c) f' p b n z e =
      let q : some no_memory ≡ some done = ap (λ (p : os.File × Option Status). p.1) e in absurd cc

  after_fstat-reach :
      (buffer : Bool) (off len : ℕ) (r : os.File × Done) (f' : os.File)
      → 0 < len
      → off + len < 2 ^ 64
      → after_fstat os buffer off len r ≡ (f', some done)
      → Reached r.0 off len f'
  unfolding after_fstat
  after_fstat-reach buffer off len (g, Done.failed c) f' p b e =
      let q : some (errno c) ≡ some done = ap (λ (p : os.File × Option Status). p.1) e in absurd cc
  after_fstat-reach buffer off len (g, success) f' p b e =
      let inside = inside_file (os.size g) off len in
      elim (Bool-cases (inside_file (os.size g) off len == 0)) [
        | inl none_inside ↦
            extend_file-reach g (os.size g) off len f' p b (omega arith) (rw none_inside at e)
        | inr some_inside ↦
            let z = os.zero_range g off inside in
            after_zeroing-reach buffer g (os.size g) off len z f' p b refl
              (posix.zero_range_size g z.0 off inside z.1 refl) (rw some_inside at e)
      ]

  pub zero_range-reach :
      (buffer : Bool) (f : os.File) (off len : ℕ) (f' : os.File)
      → off + len < 2 ^ 64
      → zero_range os buffer f off len ≡ (f', some done)
      → Reached f off len f'
  unfolding zero_range
  zero_range-reach buffer f off zero f' b e =
      let a : f ≡ f' = ap (λ (p : os.File × Option Status). p.0) e in
      (rw (← a) (omega arith), λ l. absurd (omega (arith, l)))
  zero_range-reach buffer f off (suc len) f' b e =
      let same = (posix.fstat_same f).1 in
      let w = after_fstat-reach buffer off (suc len) (os.fstat f) f' (omega arith) b e in
      (omega (arith, w.0, same), w.1)
