-- ===== src/Zero/Outside.antt =====
-- However `zero_range` ends, no byte outside its range changes.
use Prim.Native.Nat.{min}
use libspill.Base.{
  ℕ, zero, suc, ◌+◌, ◌-◌, ◌^◌, ◌<◌, ◌≡◌, refl, inl, inr, Bool, true, false, ◌+₆₄◌, ◌-₆₄◌, +₆₄-eq,
  -₆₄-eq, Option, none, some, List, [], ◌∷◌, arith, leb, ◌==◌, Bool-cases, replicate, length,
  length-replicate, ◌∙◌,
}
use libspill.Alloc.Shape.{in_range}
use libspill.Status.{Status, done}
use libspill.Os.{Os, IsPosix, Done, success}
use libspill.Io.{ls_pwrite_all}
use libspill.Io.Retry.{ls_pwrite_all-Wrote}
use libspill.Scatter.{and_then}
use libspill.Zero.{
  inside_file, zero_chunks, slow_zero, extend_file, after_zeroing, after_fstat, zero_range, chunk,
}
use libspill.Zero.Laws.{inside_file-le}

module _ (os : Os) (posix : IsPosix os) where
  -- A property of the file that the first part has, and that the second one keeps.
  pub and_then-Holds :
      (P : os.File → Type 0) (r : os.File × Option Status) (k : os.File → os.File × Option Status)
      → P r.0
      → ((g : os.File) → P g → P (k g).0)
      → P (and_then os r k).0
  and_then-Holds P (f, some done) k a b = b f a
  and_then-Holds P (f, some e) k a b = a
  and_then-Holds P (f, none) k a b = a

  pub ls_pwrite_all-outside :
      (f : os.File) (bs : List ℕ) (off x : ℕ)
      → in_range off (length bs) x ≡ false
      → os.byte_at (ls_pwrite_all os f bs off).0 x ≡ os.byte_at f x
  ls_pwrite_all-outside f bs off x q =
      let (st, e, w) = ls_pwrite_all-Wrote os posix f bs off in w.outside x q

  abbrev Same : ℕ → ℕ → os.File → os.File → Type 0
  Same off len f g = (x : ℕ) → in_range off len x ≡ false → os.byte_at g x ≡ os.byte_at f x

  zero_chunks-Same :
      (size fuel : ℕ) (f : os.File) (off len : ℕ)
      → Same off len f (zero_chunks os size fuel f off len).0
  unfolding zero_chunks
  zero_chunks-Same size fuel f off zero = λ x q. refl
  zero_chunks-Same size zero f off (suc len) = λ x q. refl
  zero_chunks-Same size (suc fuel) f off (suc len) =
      let k = min size (suc len) in
      let n = length-replicate {A = ℕ} k 0 in
      and_then-Holds (Same off (suc len) f) (ls_pwrite_all os f (replicate k 0) off)
        (λ h. zero_chunks os size fuel h (off + k) (suc len - k))
        (λ x q. ls_pwrite_all-outside f (replicate k 0) off x (ground (arith, q, n)))
        (λ g a x q.
          zero_chunks-Same size fuel g (off + k) (suc len - k) x (ground (arith, q)) ∙ a x q)

  extend_file-Same :
      (f : os.File) (end off len : ℕ)
      → 0 < len
      → off + len < 2 ^ 64
      → Same off len f (extend_file os f end off len).0
  unfolding extend_file
  extend_file-Same f end off len p b x q =
      let sum = +₆₄-eq off len b in
      let last = -₆₄-eq (off + len) 1 b (omega arith) in
      elim (Bool-cases (leb (off +₆₄ len) end)) [
        | inl fits ↦ rw fits refl
        | inr short ↦ rw short (
            ls_pwrite_all-outside f (0 ∷ []) (off +₆₄ len -₆₄ 1) x
              (rw (sum, last) (ground (arith, q))))
      ]

  after_zeroing-Same :
      (buffer : Bool) (f : os.File) (end off len : ℕ) (r : os.File × Done)
      → 0 < len
      → off + len < 2 ^ 64
      → Same off len f r.0
      → Same off len f (after_zeroing os buffer end off len r).0
  unfolding after_zeroing slow_zero
  after_zeroing-Same buffer f end off len (g, success) p b a x q =
      extend_file-Same g end off len p b x q ∙ a x q
  after_zeroing-Same true f end off len (g, Done.failed e) p b a x q =
      zero_chunks-Same chunk len g off len x q ∙ a x q
  after_zeroing-Same false f end off len (g, Done.failed e) p b a x q = a x q

  after_fstat-Same :
      (buffer : Bool) (f : os.File) (off len : ℕ) (r : os.File × Done)
      → 0 < len
      → off + len < 2 ^ 64
      → ((x : ℕ) → os.byte_at r.0 x ≡ os.byte_at f x)
      → Same off len f (after_fstat os buffer off len r).0
  unfolding after_fstat
  after_fstat-Same buffer f off len (g, Done.failed e) p b same x q = same x
  after_fstat-Same buffer f off len (g, success) p b same x q =
      let inside = inside_file (os.size g) off len in
      let le = inside_file-le (os.size g) off len in
      elim (Bool-cases (inside_file (os.size g) off len == 0)) [
        | inl none_inside ↦ rw none_inside (extend_file-Same g (os.size g) off len p b x q ∙ same x)
        | inr some_inside ↦ rw some_inside (
            after_zeroing-Same buffer g (os.size g) off len (os.zero_range g off inside) p b
              (λ y o.
                posix.zero_range_outside g (os.zero_range g off inside).0 off inside
                  (os.zero_range g off inside).1 refl y (ground (arith, o, le)))
              x q
            ∙ same x)
      ]

  pub zero_range-outside :
      (buffer : Bool) (f : os.File) (off len x : ℕ)
      → off + len < 2 ^ 64
      → in_range off len x ≡ false
      → os.byte_at (zero_range os buffer f off len).0 x ≡ os.byte_at f x
  unfolding zero_range
  zero_range-outside buffer f off zero x b q = refl
  zero_range-outside buffer f off (suc len) x b q =
      after_fstat-Same buffer f off (suc len) (os.fstat f) (omega arith) b (posix.fstat_same f).0 x
        q
