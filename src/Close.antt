-- ===== src/Close.antt =====
-- src/open.c: `ls_close` and `ls_unlink_now`, buffered and without HDF5, after the worker pool was
-- stopped. `fsync` and `unlink` are the kernel's, and leave an errno when they fail; a path is there
-- until `ls_unlink_now` drops it. A report without a key has an empty one.
use libspill.Base.{
  ℕ, Bool, true, ◌&&◌, ◌||◌, not, Option, none, some, List, [], ◌∷◌, if◌then◌else◌, ◌==◌,
}
use libspill.Toc.{Rec}
use libspill.TocFile.{toc_serialise}
use libspill.Status.{Status, done, errno, Result, ok, fail}
use libspill.Os.{Os, Done, success}
use libspill.Io.{ls_pwrite_all}
use libspill.Options.{is_shared}
use libspill.Super.{super_bytes}
use libspill.Store.{Store, ls_report}
use libspill.Store.Capacity.{spill_all}
use libspill.Store.Keys.{rec_free}

abbrev pub enoent : ℕ
enoent = 2

module _ (os : Os) (fsync : os.File → os.File × Done) where
  abbrev pub and_write :
      os.File × Option Status → (os.File → os.File × Option Status) → os.File × Option Status
  and_write (f, some done) k = k f
  and_write (f, some e) k = (f, some e)
  and_write (f, none) k = (f, none)

  abbrev pub synced : os.File × Done → os.File × Option Status
  synced (f, success) = (f, some done)
  synced (f, Done.failed e) = (f, some (errno e))

  -- the table of contents, then the superblock, then perhaps `fsync`
  unfoldable pub write_toc : Store os → List ℕ → os.File × Option Status
  unfolding super_bytes
  write_toc s tb =
      let file_end = s.space.alloc.file_end in
      and_write (ls_pwrite_all os s.space.file tb file_end) (λ f.
        and_write (ls_pwrite_all os f (super_bytes file_end s.table.nrec tb) 0)
          (λ g. if s.opts.durable_close then synced (fsync g) else (g, some done)))

  -- `first` is the first error
  abbrev pub first_of : Status → Status → Status
  first_of done rc = rc
  first_of first rc = first

  abbrev pub toc_written : Store os → Status → os.File × Option Status → Store os × Option Status
  toc_written s first (f, some rc) =
      (record s { space = record s.space { file = f } }, some (first_of first rc))
  toc_written s first (f, none) = (record s { space = record s.space { file = f } }, none)

  abbrev pub serialised : Store os → Status → Result (List ℕ) → Store os × Option Status
  serialised s first (fail e) = (s, some (first_of first e))
  serialised s first (ok tb) = toc_written s first (write_toc s tb)

  -- by the outcome of `ls_spill_all`
  abbrev pub after_spill_all : Store os × Option Status → Store os × Option Status
  after_spill_all (s, none) = (s, none)
  after_spill_all (s, some rc) = serialised s rc (toc_serialise s.table)

  -- what a kept store writes
  unfoldable pub persist : Store os → Store os × Option Status
  unfolding write_toc spill_all toc_serialise
  persist s = after_spill_all (spill_all os s)

  unfoldable pub free_chain : Store os → List Rec → Store os
  unfolding rec_free
  free_chain s [] = s
  free_chain s (r ∷ c) = free_chain (rec_free os s r) c

  unfoldable pub free_tab : Store os → List (List Rec) → Store os
  unfolding free_chain
  free_tab s [] = s
  free_tab s (c ∷ cs) = free_tab (free_chain s c) cs

  -- nothing is recycled any more, and the records are freed
  unfoldable pub tear_down : Store os → Store os
  unfolding free_tab
  tear_down s =
      let a = record s.space.alloc { teardown = true } in
      free_tab (record s { space = record s.space { alloc = a } }) s.table.tab

  abbrev pub torn_down : Store os × Option Status → Store os × Option Status
  torn_down (s, rc) = (tear_down s, rc)

  -- The store before its memory is freed, the status, and whether the path is unlinked.
  unfoldable pub ls_close : Store os → Bool → Bool → Store os × Option Status × Bool
  unfolding persist tear_down
  ls_close s has_path keep =
      let shared = is_shared s.opts.parallel in
      let (s', rc) = torn_down (if keep && not shared then persist s else (s, some done)) in
      (s', rc, not (keep || shared) && has_path)

-- by the outcome of `unlink`, an errno if it failed
module _ (os : Os) where
  abbrev pub unlinked : Store os → List ℕ → Option ℕ → Store os × Option (List ℕ) × Status
  unlinked s path none = (s, none, done)
  unlinked s path (some e) =
      if e == enoent
      then (s, none, done)
      else (ls_report os s (errno e) [] 0 0 "unlink_now", some path, errno e)

  -- the store, its path afterwards, and the status
  unfoldable pub ls_unlink_now :
      (List ℕ → Option ℕ) → Store os → Option (List ℕ) → Store os × Option (List ℕ) × Status
  ls_unlink_now unlink s none = (s, none, done)
  ls_unlink_now unlink s (some path) = unlinked s path (unlink path)
