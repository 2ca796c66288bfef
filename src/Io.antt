-- ===== src/Io.antt =====
-- src/store.c, `rw_all` for a store that is not under O_DIRECT, or for an aligned transfer: the
-- loops that retry short and interrupted transfers. The buffer from `p + done` on is the list of
-- the bytes still to be written, and `off` is `off + done`. `none` means that the fuel ran out.
pub mod Retry
pub mod ReadLoop
use libspill.Base.{
  ℕ, zero, suc, ◌+◌, ◌-◌, ◌≡◌, Bool, true, false, Option, none, some, List, [], ◌∷◌, ◌++◌,
  if◌then◌else◌, ◌==◌, length, drop,
}
use libspill.Status.{Status, done, errno, Result, ok, fail}
use libspill.Os.{Os, Moved, moved, Got, got, eintr, eio, enospc}

module _ (os : Os) where
  -- what follows one call of `ls_os_pwrite`, with the rest of the loop as an argument
  unfoldable pub after_pwrite :
      (os.File → List ℕ → ℕ → os.File × Option Status)
      → List ℕ
      → ℕ
      → os.File × Moved
      → os.File × Option Status
  after_pwrite loop bs off (f, Moved.failed e) = elim (e == eintr) [
    | true ↦ loop f bs off
    | false ↦ (f, some (errno e))
  ]
  after_pwrite loop bs off (f, moved zero) = (f, some (errno enospc))
  after_pwrite loop bs off (f, moved (suc k)) = loop f (drop (suc k) bs) (off + suc k)

  unfoldable pub pwrite_all : ℕ → os.File → List ℕ → ℕ → os.File × Option Status
  pwrite_all fuel f [] off = (f, some done)
  pwrite_all zero f (b ∷ bs) off = (f, none)
  pwrite_all (suc fuel) f (b ∷ bs) off =
      after_pwrite (pwrite_all fuel) (b ∷ bs) off (os.pwrite f (b ∷ bs) off)

  abbrev pub prepend :
      List ℕ → os.File × Option (Result (List ℕ)) → os.File × Option (Result (List ℕ))
  prepend bs (f, some (ok cs)) = (f, some (ok (bs ++ cs)))
  prepend bs (f, some (fail e)) = (f, some (fail e))
  prepend bs (f, none) = (f, none)

  unfoldable pub after_pread :
      (os.File → ℕ → ℕ → os.File × Option (Result (List ℕ)))
      → ℕ
      → ℕ
      → os.File × Got
      → os.File × Option (Result (List ℕ))
  after_pread loop n off (f, Got.failed e) = elim (e == eintr) [
    | true ↦ loop f n off
    | false ↦ (f, some (fail (errno e)))
  ]
  after_pread loop n off (f, got []) = (f, some (fail (errno eio)))
  after_pread loop n off (f, got (b ∷ bs)) =
      prepend (b ∷ bs) (loop f (n - length (b ∷ bs)) (off + length (b ∷ bs)))

  unfoldable pub pread_all : ℕ → os.File → ℕ → ℕ → os.File × Option (Result (List ℕ))
  pread_all fuel f zero off = (f, some (ok []))
  pread_all zero f (suc n) off = (f, none)
  pread_all (suc fuel) f (suc n) off =
      after_pread (pread_all fuel) (suc n) off (os.pread f (suc n) off)

  -- `ls_pwrite_all` and `ls_pread_all`, with fuel that is always enough.
  unfoldable pub ls_pwrite_all : os.File → List ℕ → ℕ → os.File × Option Status
  unfolding pwrite_all after_pwrite
  ls_pwrite_all f bs off = pwrite_all (length bs + os.patience f) f bs off

  unfoldable pub ls_pread_all : os.File → ℕ → ℕ → os.File × Option (Result (List ℕ))
  unfolding pread_all after_pread
  ls_pread_all f n off = pread_all (n + os.patience f) f n off
