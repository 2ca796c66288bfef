-- ===== src/Store/Transfer.antt =====
-- src/store.c: `ls_rw`, `ls_write`, `ls_read`, `ls_append`, `ls_readv`, `ls_writev`. Each is a part
-- under `toc_lk`, which ends with a pinned record and a snapshot of its place, the transfer without
-- the lock, and the unpinning. A buffer is `none` where the caller's pointer is null.
use Prim.Native.String.{String}
use libspill.Base.{
  ℕ, Bool, true, false, ◌&&◌, ◌||◌, not, Option, none, some, List, [], ltb, if◌then◌else◌, length,
  take, ◌+₆₄◌,
}
use libspill.Toc.{Rec, toc_find, key_ok}
use libspill.Status.{Status, done, nokey, range, inval, wrong_mode, no_memory, Result, ok, fail}
use libspill.Os.{Os}
use libspill.Options.{is_shared}
use libspill.Scatter.{Place, scatter_write, scatter_read}
use libspill.Store.{Store, ls_report, find_or_insert, pin, unpin}
use libspill.Store.Capacity.{ensure_cap}

-- How the part under the lock ends: with a status, or with the place of the pinned record. `spent`
-- means that the fuel of a loop ran out.
pub data Start : Type 0 where
  refused : Status → Start
  started : Place → Start
  spent : Start

abbrev pub key_bytes : Option (List ℕ) → List ℕ
key_bytes none = []
key_bytes (some key) = key

-- `(n && !buf)`
abbrev pub no_buffer : ℕ → Bool → Bool
no_buffer n given = ltb 0 n && not given

abbrev pub is_given : Option (List ℕ) → Bool
is_given none = false
is_given (some bs) = true

-- the `n` bytes that the caller's buffer holds
abbrev pub buffer_bytes : ℕ → Option (List ℕ) → List ℕ
buffer_bytes n none = []
buffer_bytes n (some bs) = take n bs

module _ (os : Os) where
  abbrev pub started_at : Store os × Place → Store os × Start
  started_at (s, p) = (s, started p)

  -- `if (hi > r->size) r->size = hi`
  abbrev pub stretched : Rec → ℕ → Rec
  stretched r hi = record r { size = if ltb r.size hi then hi else r.size }

  -- by the outcome of `ensure_cap`
  unfoldable pub after_cap :
      List ℕ → ℕ → ℕ → String → ℕ → Store os × Rec × Option Status → Store os × Start
  after_cap key off n msg hi (s, r, some done) = started_at (pin os s (stretched r hi))
  after_cap key off n msg hi (s, r, some e) = (ls_report os s e key off n msg, refused e)
  after_cap key off n msg hi (s, r, none) = (s, spent)

  -- capacity up to `hi` for the record that was found or inserted
  unfoldable pub with_capacity :
      List ℕ → ℕ → ℕ → String → ℕ → Store os × Option Rec → Store os × Start
  unfolding after_cap
  with_capacity key off n msg hi (s, none) = (s, refused no_memory)
  with_capacity key off n msg hi (s, some r) = after_cap key off n msg hi (ensure_cap os s r hi)

  abbrev pub frozen : String
  frozen = "a shared store's layout is frozen; reserve it before sharing"

  -- whether a record that may not be there ends before `hi`
  abbrev pub is_short : Option Rec → ℕ → Bool
  is_short none hi = true
  is_short (some r) hi = ltb r.size hi

  -- for a write: `off` and `n` are those of the error report, `hi` is where the last byte ends
  unfoldable pub begin_write : List ℕ → ℕ → ℕ → ℕ → ℕ → String → ℕ → Store os → Store os × Start
  unfolding with_capacity
  begin_write key off n off' n' msg hi s =
      if is_shared s.opts.parallel && is_short (toc_find s.table key) hi
      then (ls_report os s wrong_mode key off n frozen, refused wrong_mode)
      else with_capacity key off' n' msg hi (find_or_insert os s key)

  -- for a read
  abbrev pub begin_found : List ℕ → ℕ → ℕ → String → ℕ → Store os → Option Rec → Store os × Start
  begin_found key off n msg hi s none = (ls_report os s nokey key off n msg, refused nokey)
  begin_found key off n msg hi s (some r) =
      if ltb r.size hi
      then (ls_report os s range key off n msg, refused range)
      else started_at (pin os s r)

  unfoldable pub begin_read : List ℕ → ℕ → ℕ → String → ℕ → Store os → Store os × Start
  begin_read key off n msg hi s = begin_found key off n msg hi s (toc_find s.table key)

  abbrev pub with_file : Store os → os.File → Store os
  with_file s f = record s { space = record s.space { file = f } }

  -- the record is unpinned, and an error is reported
  unfoldable pub finish : List ℕ → ℕ → ℕ → String → Store os → Option (List ℕ) → Status → Store os
  finish key off n msg s mem st = ls_report os (unpin os s key mem) st key off n msg

  abbrev pub end_write :
      List ℕ
      → ℕ
      → ℕ
      → String
      → Store os
      → os.File × Option (List ℕ) × Option Status
      → Store os × Option Status
  end_write key off n msg s (f, mem, some st) =
      (finish key off n msg (with_file s f) mem st, some st)
  end_write key off n msg s (f, mem, none) = (with_file s f, none)

  unfoldable pub transfer_write :
      List ℕ → ℕ → List ℕ → String → Store os × Start → Store os × Option Status
  unfolding finish
  transfer_write key off bs msg (s, refused e) = (s, some e)
  transfer_write key off bs msg (s, spent) = (s, none)
  transfer_write key off bs msg (s, started p) =
      end_write key off (length bs) msg s (scatter_write os s.space.file p off bs)

  abbrev pub end_read :
      List ℕ
      → ℕ
      → ℕ
      → String
      → Store os
      → Option (List ℕ)
      → os.File × Option (Result (List ℕ))
      → Store os × Option (Result (List ℕ))
  end_read key off n msg s mem (f, some (ok bs)) =
      (finish key off n msg (with_file s f) mem done, some (ok bs))
  end_read key off n msg s mem (f, some (fail e)) =
      (finish key off n msg (with_file s f) mem e, some (fail e))
  end_read key off n msg s mem (f, none) = (with_file s f, none)

  unfoldable pub transfer_read :
      List ℕ → ℕ → ℕ → String → Store os × Start → Store os × Option (Result (List ℕ))
  unfolding finish
  transfer_read key off n msg (s, refused e) = (s, some (fail e))
  transfer_read key off n msg (s, spent) = (s, none)
  transfer_read key off n msg (s, started p) =
      end_read key off n msg s p.mem (scatter_read os s.space.file p off n)

  -- `ls_rw` with `LS_OP_WRITE`, after the check of the arguments
  unfoldable pub rw_write_bytes : Store os → List ℕ → ℕ → List ℕ → Store os × Option Status
  unfolding transfer_write begin_write
  rw_write_bytes s key off bs =
      let n = length bs in
      if ltb (off +₆₄ n) off
      then (s, some range)
      else transfer_write key off bs "write"
          (begin_write key off n off n "reserving space for write" (off +₆₄ n) s)

  unfoldable pub rw_write :
      Store os → Option (List ℕ) → ℕ → ℕ → Option (List ℕ) → Store os × Option Status
  unfolding rw_write_bytes
  rw_write s key off n buf =
      if not (key_ok key) || no_buffer n (is_given buf)
      then (s, some inval)
      else rw_write_bytes s (key_bytes key) off (buffer_bytes n buf)

  -- `ls_rw` with `LS_OP_READ`, after the check of the arguments
  unfoldable pub rw_read_bytes : Store os → List ℕ → ℕ → ℕ → Store os × Option (Result (List ℕ))
  unfolding transfer_read begin_read
  rw_read_bytes s key off n =
      if ltb (off +₆₄ n) off
      then (s, some (fail range))
      else transfer_read key off n "read" (begin_read key off n "read" (off +₆₄ n) s)

  unfoldable pub rw_read :
      Store os → Option (List ℕ) → ℕ → ℕ → Bool → Store os × Option (Result (List ℕ))
  unfolding rw_read_bytes
  rw_read s key off n given =
      if not (key_ok key) || no_buffer n given
      then (s, some (fail inval))
      else rw_read_bytes s (key_bytes key) off n

  unfoldable pub ls_write :
      Store os → Option (List ℕ) → ℕ → ℕ → Option (List ℕ) → Store os × Option Status
  unfolding rw_write
  ls_write s key off n buf =
      if not (key_ok key) || no_buffer n (is_given buf)
      then (s, some inval)
      else rw_write s key off n buf

  unfoldable pub ls_read :
      Store os → Option (List ℕ) → ℕ → ℕ → Bool → Store os × Option (Result (List ℕ))
  unfolding rw_read
  ls_read s key off n given =
      if not (key_ok key) || no_buffer n given
      then (s, some (fail inval))
      else rw_read s key off n given
