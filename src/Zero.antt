-- ===== src/Zero.antt =====
-- src/store.c, `zero_range`, for a store that is not under O_DIRECT: the bytes of a new extent
-- must read as zero, whether or not the file reaches that far. `buffer` says whether the buffer of
-- zeros of the slow path can be allocated. `none` means that the fuel of the slow path ran out.
pub mod Reach
pub mod Laws
pub mod Ends
pub mod Outside
use Prim.Native.Nat.{min}
use libspill.Base.{
  ℕ, zero, suc, ◌+◌, ◌-◌, ◌/◌, ◌^◌, Bool, true, false, Option, none, some, List, [], ◌∷◌, leb, ltb,
  if◌then◌else◌, ◌==◌, replicate, ◌+₆₄◌, ◌-₆₄◌,
}
use libspill.Status.{Status, done, errno, no_memory}
use libspill.Os.{Os, Done, success, enospc}
use libspill.Io.{ls_pwrite_all}
use libspill.Scatter.{and_then}

-- the size of the buffer of zeros, 1 MiB
abbrev pub chunk : ℕ
chunk = 2 ^ 20

-- `(off >= end) ? 0 : (len > end - off ? end - off : len)`
unfoldable pub inside_file : ℕ → ℕ → ℕ → ℕ
inside_file end off len =
    if leb end off then 0 else (if ltb (end - off) len then end - off else len)

module _ (os : Os) where
  -- the slow path: `while (len && rc == LS_OK)`, with at most `size` zeros in one write
  unfoldable pub zero_chunks : ℕ → ℕ → os.File → ℕ → ℕ → os.File × Option Status
  zero_chunks size fuel f off zero = (f, some done)
  zero_chunks size zero f off (suc len) = (f, none)
  zero_chunks size (suc fuel) f off (suc len) =
      let k = min size (suc len) in
      and_then os (ls_pwrite_all os f (replicate k 0) off)
        (λ f'. zero_chunks size fuel f' (off + k) (suc len - k))

  unfoldable pub slow_zero : Bool → os.File → ℕ → ℕ → os.File × Option Status
  unfolding zero_chunks
  slow_zero true f off len = zero_chunks chunk len f off len
  slow_zero false f off len = (f, some no_memory)

  -- one zero at the last offset, if the range ends past the end of the file
  unfoldable pub extend_file : os.File → ℕ → ℕ → ℕ → os.File × Option Status
  extend_file f end off len =
      if leb (off +₆₄ len) end
      then (f, some done)
      else ls_pwrite_all os f (0 ∷ []) (off +₆₄ len -₆₄ 1)

  -- by the outcome of the zeroing primitive
  unfoldable pub after_zeroing : Bool → ℕ → ℕ → ℕ → os.File × Done → os.File × Option Status
  unfolding extend_file slow_zero
  after_zeroing buffer end off len (f, success) = extend_file f end off len
  after_zeroing buffer end off len (f, Done.failed e) = slow_zero buffer f off len

  unfoldable pub after_fstat : Bool → ℕ → ℕ → os.File × Done → os.File × Option Status
  unfolding after_zeroing inside_file
  after_fstat buffer off len (f, Done.failed e) = (f, some (errno e))
  after_fstat buffer off len (f, success) =
      let end = os.size f in
      let inside = inside_file end off len in
      if inside == 0
      then extend_file f end off len
      else after_zeroing buffer end off len (os.zero_range f off inside)

  unfoldable pub zero_range : Bool → os.File → ℕ → ℕ → os.File × Option Status
  unfolding after_fstat
  zero_range buffer f off zero = (f, some done)
  zero_range buffer f off (suc len) = after_fstat buffer off (suc len) (os.fstat f)
