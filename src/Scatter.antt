-- ===== src/Scatter.antt =====
-- src/store.c, `ls_scatter`: a transfer between a buffer and the bytes of a record, which lie in
-- memory or in a list of extents. `pos` is `off + done`, `bs` the rest of the buffer from `done`
-- on and `n` the bytes still to be read. Offsets within a record and within the file stay below
-- 2 ^ 63, where the file system stops, so their sums do not wrap.
pub mod Write
pub mod Read
pub mod RoundTrip
pub mod Touch
use Prim.Native.Nat.{min}
use libspill.Base.{
  ℕ, zero, suc, ◌+◌, ◌-◌, Bool, true, false, Option, none, some, List, [], ◌∷◌, ◌++◌, leb,
  if◌then◌else◌, length, take, drop,
}
use libspill.Alloc.{Extent}
use libspill.Status.{Status, done, errno, Result, ok, fail}
use libspill.Os.{Os, eio}
use libspill.Io.{ls_pwrite_all, ls_pread_all, prepend}

-- `ls_place`
pub record Place : Type 0 where
  pub mem : Option (List ℕ)
  pub ext : List Extent

-- `memcpy(p->mem + off, in, n)`, where the record's memory holds `off + n` bytes
unfoldable pub copy_in : ℕ → List ℕ → List ℕ → List ℕ
copy_in off bs mem = take off mem ++ (bs ++ drop (off + length bs) mem)

module _ (os : Os) where
  -- the loop goes on after a transfer that succeeded
  abbrev pub and_then :
      os.File × Option Status → (os.File → os.File × Option Status) → os.File × Option Status
  and_then (f, some done) k = k f
  and_then (f, some e) k = (f, some e)
  and_then (f, none) k = (f, none)

  unfoldable pub scatter_out : os.File → List Extent → ℕ → ℕ → List ℕ → os.File × Option Status
  scatter_out f [] base pos [] = (f, some done)
  scatter_out f [] base pos (b ∷ bs) = (f, some (errno eio))
  scatter_out f (e ∷ es) base pos [] = (f, some done)
  scatter_out f (e ∷ es) base pos (b ∷ bs) =
      let ehi = base + e.len in
      let k = min (ehi - pos) (length (b ∷ bs)) in
      let skipped = scatter_out f es ehi pos (b ∷ bs) in
      let written =
        and_then (ls_pwrite_all os f (take k (b ∷ bs)) (e.foff + (pos - base)))
          (λ f'. scatter_out f' es ehi (pos + k) (drop k (b ∷ bs))) in
      if leb ehi pos then skipped else written

  abbrev pub and_append :
      os.File × Option (Result (List ℕ))
      → (os.File → os.File × Option (Result (List ℕ)))
      → os.File × Option (Result (List ℕ))
  and_append (f, some (ok bs)) k = prepend os bs (k f)
  and_append (f, some (fail e)) k = (f, some (fail e))
  and_append (f, none) k = (f, none)

  unfoldable pub scatter_in : os.File → List Extent → ℕ → ℕ → ℕ → os.File × Option (Result (List ℕ))
  scatter_in f [] base pos zero = (f, some (ok []))
  scatter_in f [] base pos (suc n) = (f, some (fail (errno eio)))
  scatter_in f (e ∷ es) base pos zero = (f, some (ok []))
  scatter_in f (e ∷ es) base pos (suc n) =
      let ehi = base + e.len in
      let k = min (ehi - pos) (suc n) in
      let skipped = scatter_in f es ehi pos (suc n) in
      let read =
        and_append (ls_pread_all os f k (e.foff + (pos - base)))
          (λ f'. scatter_in f' es ehi (pos + k) (suc n - k)) in
      if leb ehi pos then skipped else read

  -- `ls_scatter` with LS_OP_WRITE: the file and the memory afterwards
  unfoldable pub scatter_write :
      os.File → Place → ℕ → List ℕ → os.File × Option (List ℕ) × Option Status
  unfolding scatter_out
  scatter_write f p off [] = (f, p.mem, some done)
  scatter_write f p off (b ∷ bs) = elim p.mem [
    | some m ↦ (f, some (copy_in off (b ∷ bs) m), some done)
    | none ↦ let r = scatter_out f p.ext 0 off (b ∷ bs) in (r.0, none, r.1)
  ]

  -- `ls_scatter` with LS_OP_READ
  unfoldable pub scatter_read : os.File → Place → ℕ → ℕ → os.File × Option (Result (List ℕ))
  unfolding scatter_in
  scatter_read f p off zero = (f, some (ok []))
  scatter_read f p off (suc n) = elim p.mem [
    | some m ↦ (f, some (ok (take (suc n) (drop off m))))
    | none ↦ scatter_in f p.ext 0 off (suc n)
  ]
