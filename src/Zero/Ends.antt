-- ===== src/Zero/Ends.antt =====
-- `zero_range` always ends: the fuel of its slow path is enough.
use Prim.Native.Nat.{min}
use libspill.Base.{
  ℕ, zero, suc, ◌+◌, ◌-◌, ◌≤◌, ◌<◌, ◌≡◌, refl, inl, inr, Bool, true, false, ◌+₆₄◌, ◌-₆₄◌, Option,
  none, some, List, [], ◌∷◌, arith, leb, ◌==◌, Bool-cases, replicate,
}
use libspill.Status.{Status, done, errno, no_memory}
use libspill.Os.{Os, IsPosix, Done, success}
use libspill.Io.{ls_pwrite_all}
use libspill.Io.Retry.{ls_pwrite_all-Wrote}
use libspill.Scatter.{and_then}
use libspill.Zero.{
  inside_file, zero_chunks, slow_zero, extend_file, after_zeroing, after_fstat, zero_range, chunk,
}

module _ (os : Os) (posix : IsPosix os) where
  abbrev pub Ends : os.File × Option Status → Type 0
  Ends r = (st : Status) × (r.1 ≡ some st)

  pub and_then-Ends :
      (r : os.File × Option Status) (k : os.File → os.File × Option Status)
      → Ends r
      → ((f : os.File) → Ends (k f))
      → Ends (and_then os r k)
  and_then-Ends (f, some done) k a b = b f
  and_then-Ends (f, some e) k a b = (e, refl)
  and_then-Ends (f, none) k (st, e) b = absurd cc

  pub ls_pwrite_all-Ends : (f : os.File) (bs : List ℕ) (off : ℕ) → Ends (ls_pwrite_all os f bs off)
  ls_pwrite_all-Ends f bs off = let (st, e, w) = ls_pwrite_all-Wrote os posix f bs off in (st, e)

  zero_chunks-Ends :
      (size fuel : ℕ) (f : os.File) (off len : ℕ)
      → 0 < size
      → len ≤ fuel
      → Ends (zero_chunks os size fuel f off len)
  unfolding zero_chunks
  zero_chunks-Ends size fuel f off zero p l = (done, refl)
  zero_chunks-Ends size zero f off (suc len) p l = absurd (omega arith)
  zero_chunks-Ends size (suc fuel) f off (suc len) p l =
      let k = min size (suc len) in
      and_then-Ends (ls_pwrite_all os f (replicate k 0) off)
        (λ h. zero_chunks os size fuel h (off + k) (suc len - k))
        (ls_pwrite_all-Ends f (replicate k 0) off)
        (λ h. zero_chunks-Ends size fuel h (off + k) (suc len - k) p (omega arith))

  extend_file-Ends : (f : os.File) (end off len : ℕ) → Ends (extend_file os f end off len)
  unfolding extend_file
  extend_file-Ends f end off len = elim (Bool-cases (leb (off +₆₄ len) end)) [
    | inl fits ↦ rw fits (done, refl)
    | inr short ↦ rw short (ls_pwrite_all-Ends f (0 ∷ []) (off +₆₄ len -₆₄ 1))
  ]

  after_zeroing-Ends :
      (buffer : Bool) (end off len : ℕ) (r : os.File × Done)
      → Ends (after_zeroing os buffer end off len r)
  unfolding after_zeroing slow_zero
  after_zeroing-Ends buffer end off len (f, success) = extend_file-Ends f end off len
  after_zeroing-Ends true end off len (f, Done.failed e) =
      zero_chunks-Ends chunk len f off len (omega arith) (omega arith)
  after_zeroing-Ends false end off len (f, Done.failed e) = (no_memory, refl)

  after_fstat-Ends :
      (buffer : Bool) (off len : ℕ) (r : os.File × Done) → Ends (after_fstat os buffer off len r)
  unfolding after_fstat
  after_fstat-Ends buffer off len (f, Done.failed e) = (errno e, refl)
  after_fstat-Ends buffer off len (f, success) =
      elim (Bool-cases (inside_file (os.size f) off len == 0)) [
        | inl none_inside ↦ rw none_inside (extend_file-Ends f (os.size f) off len)
        | inr some_inside ↦ rw some_inside (
            after_zeroing-Ends buffer (os.size f) off len
              (os.zero_range f off (inside_file (os.size f) off len)))
      ]

  -- `zero_range` always ends with a status.
  pub zero_range-Ends :
      (buffer : Bool) (f : os.File) (off len : ℕ) → Ends (zero_range os buffer f off len)
  unfolding zero_range
  zero_range-Ends buffer f off zero = (done, refl)
  zero_range-Ends buffer f off (suc len) = after_fstat-Ends buffer off (suc len) (os.fstat f)
