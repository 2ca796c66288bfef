-- ===== src/Store/Accumulate.antt =====
-- src/store.c: `ls_accumulate`. The reduction is the caller's: `reduce dst src` is what `op` leaves
-- in the destination. Adding floating-point numbers is the work of the machine.
use libspill.Base.{
  ℕ, zero, suc, ◌+◌, Bool, ◌||◌, not, Option, none, some, List, [], ◌∷◌, ltb, if◌then◌else◌, ◌==◌,
  length, take, drop, ◌+₆₄◌,
}
use libspill.Alloc.{granted}
use libspill.Toc.{key_ok}
use libspill.Status.{Status, done, range, inval, wrong_mode, no_memory, Result, ok, fail}
use libspill.Os.{Os}
use libspill.Options.{is_mapped}
use libspill.Extents.{asked}
use libspill.Scatter.{Place, copy_in, scatter_write, scatter_read}
use libspill.Zero.{chunk}
use libspill.Store.{Store}
use libspill.Store.Transfer.{
  Start, refused, started, spent, key_bytes, no_buffer, is_given, buffer_bytes, begin_write,
  with_file, finish,
}

module _ (os : Os) (reduce : List ℕ → List ℕ → List ℕ) where
  abbrev pub and_more :
      (os.File → os.File × Option Status)
      → os.File × Option (List ℕ) × Option Status
      → os.File × Option Status
  and_more loop (f, mem, some done) = loop f
  and_more loop (f, mem, some e) = (f, some e)
  and_more loop (f, mem, none) = (f, none)

  -- the bytes of a chunk were read
  abbrev pub reduced :
      (os.File → os.File × Option Status)
      → Place
      → ℕ
      → List ℕ
      → os.File × Option (Result (List ℕ))
      → os.File × Option Status
  reduced loop p off src (f, some (ok bs)) =
      and_more loop (scatter_write os f p off (reduce bs src))
  reduced loop p off src (f, some (fail e)) = (f, some e)
  reduced loop p off src (f, none) = (f, none)

  -- The loop over a record in extents, with at most `size` bytes in one round. `none` means that the
  -- fuel ran out.
  unfoldable pub accumulate_loop : ℕ → Place → ℕ → os.File → ℕ → List ℕ → os.File × Option Status
  accumulate_loop size p fuel f off [] = (f, some done)
  accumulate_loop size p zero f off (b ∷ bs) = (f, none)
  accumulate_loop size p (suc fuel) f off (b ∷ bs) =
      let src = take size (b ∷ bs) in
      reduced (λ f'. accumulate_loop size p fuel f' (off + length src) (drop size (b ∷ bs))) p off
        src (scatter_read os f p off (length src))

  -- a resident record is reduced in place
  abbrev pub accumulate_place :
      Store os → Place → Option (List ℕ) → ℕ → List ℕ → Store os × Option (List ℕ) × Option Status
  accumulate_place s p (some m) off bs =
      (s, some (copy_in off (reduce (take (length bs) (drop off m)) bs) m), some done)
  accumulate_place s p none off bs =
      let asked_s = record s { space = asked os s.space } in
      if granted s.space.alloc.grants
      then (let (f, st) = accumulate_loop chunk p (length bs) s.space.file off bs in
          (with_file os asked_s f, none, st))
      else (asked_s, none, some no_memory)

  abbrev pub end_accumulate :
      List ℕ → ℕ → ℕ → Store os × Option (List ℕ) × Option Status → Store os × Option Status
  end_accumulate key off n (s, mem, some st) = (finish os key off n "accumulate" s mem st, some st)
  end_accumulate key off n (s, mem, none) = (s, none)

  unfoldable pub transfer_accumulate :
      List ℕ → ℕ → List ℕ → Store os × Start → Store os × Option Status
  unfolding accumulate_loop finish
  transfer_accumulate key off bs (s, refused e) = (s, some e)
  transfer_accumulate key off bs (s, spent) = (s, none)
  transfer_accumulate key off bs (s, started p) =
      end_accumulate key off (length bs) (accumulate_place s p p.mem off bs)

  -- `given_op` says whether there is a reduction
  unfoldable pub ls_accumulate :
      Store os → Option (List ℕ) → ℕ → ℕ → Option (List ℕ) → Bool → Store os × Option Status
  unfolding transfer_accumulate begin_write
  ls_accumulate s key off n buf given_op =
      if not (key_ok key) || (not given_op || no_buffer n (is_given buf))
      then (s, some inval)
      else if is_mapped s.opts.mode
      then (s, some wrong_mode)
      else if ltb (off +₆₄ n) off
      then (s, some range)
      else if n == 0
      then (s, some done)
      else (transfer_accumulate (key_bytes key) off (buffer_bytes n buf) (
          begin_write os (key_bytes key) off n off n "reserving space for accumulate" (off +₆₄ n)
            s))
