-- ===== src/Store/Append.antt =====
-- src/store.c: `ls_append`, `segv` as `ls_readv` and `ls_writev`.
use libspill.Base.{
  ℕ, Bool, ◌||◌, not, Option, none, some, List, [], ◌∷◌, ltb, if◌then◌else◌, length, ◌+₆₄◌,
}
use libspill.Toc.{Rec, key_ok}
use libspill.Status.{Status, done, range, inval, wrong_mode, no_memory, Result, ok, fail}
use libspill.Os.{Os}
use libspill.Options.{is_shared}
use libspill.Scatter.{Place, scatter_write, scatter_read}
use libspill.Store.{Store, find_or_insert}
use libspill.Store.Transfer.{
  Start, refused, started, spent, key_bytes, no_buffer, is_given, buffer_bytes, with_capacity,
  begin_write, begin_read, transfer_write, with_file, finish,
}

module _ (os : Os) where
  -- where the bytes went, if they went there
  abbrev pub at_offset : ℕ → Store os × Option Status → Store os × Option (Result ℕ)
  at_offset off (s, some done) = (s, some (ok off))
  at_offset off (s, some e) = (s, some (fail e))
  at_offset off (s, none) = (s, none)

  -- the part after the record was found or inserted: its size is the offset
  unfoldable pub append_to : List ℕ → List ℕ → Store os × Option Rec → Store os × Option (Result ℕ)
  unfolding with_capacity transfer_write
  append_to key bs (s, none) = (s, some (fail no_memory))
  append_to key bs (s, some r) =
      let n = length bs in
      if ltb (r.size +₆₄ n) r.size
      then (s, some (fail range))
      else at_offset r.size (
          transfer_write os key r.size bs "append"
            (with_capacity os key r.size n "reserving space for append" (r.size +₆₄ n) (s, some r)))

  unfoldable pub ls_append :
      Store os → Option (List ℕ) → ℕ → Option (List ℕ) → Store os × Option (Result ℕ)
  unfolding append_to
  ls_append s key n buf =
      if not (key_ok key) || no_buffer n (is_given buf)
      then (s, some (fail inval))
      else (if is_shared s.opts.parallel
          then (s, some (fail wrong_mode))
          else append_to (key_bytes key) (buffer_bytes n buf) (find_or_insert os s (key_bytes key)))

-- `ls_seg`: for a write with its source, for a read with whether the destination is given
pub record Seg {ℓ} (A : Type ℓ) : Type ℓ where
  pub off : ℕ
  pub len : ℕ
  pub buf : A

-- The scan of the list: an invalid segment, or where the last byte of all ends.
unfoldable pub scan_segs {ℓ} : {A : Type ℓ} → (A → Bool) → List (Seg A) → ℕ → Result ℕ
scan_segs given [] hi = ok hi
scan_segs given (g ∷ gs) hi =
    let stop = g.off +₆₄ g.len in
    let rest = scan_segs given gs (if ltb hi stop then stop else hi) in
    if no_buffer g.len (given g.buf)
    then fail inval
    else if ltb stop g.off
    then fail range
    else rest

module _ (os : Os) where
  abbrev pub and_next :
      (os.File → Option (List ℕ) → os.File × Option (List ℕ) × Option Status)
      → os.File × Option (List ℕ) × Option Status
      → os.File × Option (List ℕ) × Option Status
  and_next loop (f, mem, some done) = loop f mem
  and_next loop (f, mem, some e) = (f, mem, some e)
  and_next loop (f, mem, none) = (f, mem, none)

  -- the transfers of a vectored write, one after the other
  unfoldable pub write_segs :
      os.File → Place → List (Seg (Option (List ℕ))) → os.File × Option (List ℕ) × Option Status
  write_segs f p [] = (f, p.mem, some done)
  write_segs f p (g ∷ gs) =
      and_next (λ f' mem. write_segs f' (record p { mem = mem }) gs)
        (scatter_write os f p g.off (buffer_bytes g.len g.buf))

  abbrev pub cons_read :
      List ℕ → os.File × Option (Result (List (List ℕ))) → os.File × Option (Result (List (List ℕ)))
  cons_read bs (f, some (ok rest)) = (f, some (ok (bs ∷ rest)))
  cons_read bs (f, some (fail e)) = (f, some (fail e))
  cons_read bs (f, none) = (f, none)

  abbrev pub and_gather :
      (os.File → os.File × Option (Result (List (List ℕ))))
      → os.File × Option (Result (List ℕ))
      → os.File × Option (Result (List (List ℕ)))
  and_gather loop (f, some (ok bs)) = cons_read bs (loop f)
  and_gather loop (f, some (fail e)) = (f, some (fail e))
  and_gather loop (f, none) = (f, none)

  unfoldable pub read_segs :
      os.File → Place → List (Seg Bool) → os.File × Option (Result (List (List ℕ)))
  read_segs f p [] = (f, some (ok []))
  read_segs f p (g ∷ gs) = and_gather (λ f'. read_segs f' p gs) (scatter_read os f p g.off g.len)

  abbrev pub end_writev :
      List ℕ → Store os → os.File × Option (List ℕ) × Option Status → Store os × Option Status
  end_writev key s (f, mem, some st) =
      (finish os key 0 0 "writev" (with_file os s f) mem st, some st)
  end_writev key s (f, mem, none) = (with_file os s f, none)

  unfoldable pub transfer_writev :
      List ℕ → List (Seg (Option (List ℕ))) → Store os × Start → Store os × Option Status
  unfolding write_segs
  transfer_writev key segs (s, refused e) = (s, some e)
  transfer_writev key segs (s, spent) = (s, none)
  transfer_writev key segs (s, started p) = end_writev key s (write_segs s.space.file p segs)

  abbrev pub end_readv :
      List ℕ
      → Store os
      → Option (List ℕ)
      → os.File × Option (Result (List (List ℕ)))
      → Store os × Option (Result (List (List ℕ)))
  end_readv key s mem (f, some (ok bss)) =
      (finish os key 0 0 "readv" (with_file os s f) mem done, some (ok bss))
  end_readv key s mem (f, some (fail e)) =
      (finish os key 0 0 "readv" (with_file os s f) mem e, some (fail e))
  end_readv key s mem (f, none) = (with_file os s f, none)

  unfoldable pub transfer_readv :
      List ℕ → List (Seg Bool) → Store os × Start → Store os × Option (Result (List (List ℕ)))
  unfolding read_segs
  transfer_readv key segs (s, refused e) = (s, some (fail e))
  transfer_readv key segs (s, spent) = (s, none)
  transfer_readv key segs (s, started p) = end_readv key s p.mem (read_segs s.space.file p segs)

  abbrev pub writev_scanned :
      Store os → List ℕ → List (Seg (Option (List ℕ))) → Result ℕ → Store os × Option Status
  writev_scanned s key segs (fail e) = (s, some e)
  writev_scanned s key segs (ok hi) =
      transfer_writev key segs (begin_write os key 0 hi 0 0 "reserving space for writev" hi s)

  abbrev pub readv_scanned :
      Store os → List ℕ → List (Seg Bool) → Result ℕ → Store os × Option (Result (List (List ℕ)))
  readv_scanned s key segs (fail e) = (s, some (fail e))
  readv_scanned s key segs (ok hi) = transfer_readv key segs (begin_read os key 0 0 "readv" hi s)

  -- `segv` with `LS_OP_WRITE`, for an array that is not null
  unfoldable pub ls_writev :
      Store os → Option (List ℕ) → List (Seg (Option (List ℕ))) → Store os × Option Status
  unfolding transfer_writev begin_write
  ls_writev s key [] = if not (key_ok key) then (s, some inval) else (s, some done)
  ls_writev s key (g ∷ gs) =
      if not (key_ok key)
      then (s, some inval)
      else writev_scanned s (key_bytes key) (g ∷ gs) (scan_segs is_given (g ∷ gs) 0)

  -- `segv` with `LS_OP_READ`, for an array that is not null
  unfoldable pub ls_readv :
      Store os → Option (List ℕ) → List (Seg Bool) → Store os × Option (Result (List (List ℕ)))
  unfolding transfer_readv begin_read
  ls_readv s key [] = if not (key_ok key) then (s, some (fail inval)) else (s, some (ok []))
  ls_readv s key (g ∷ gs) =
      if not (key_ok key)
      then (s, some (fail inval))
      else readv_scanned s (key_bytes key) (g ∷ gs) (scan_segs (λ b. b) (g ∷ gs) 0)
