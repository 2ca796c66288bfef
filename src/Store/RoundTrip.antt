-- ===== src/Store/RoundTrip.antt =====
-- src/store.c: a read after a write of the same range.
use libspill.Base.{ℕ, ◌≡◌, true, Option, some, List, ap, sym, ◌∙◌}
use libspill.Toc.{key_ok}
use libspill.Status.{Status, done, inval}
use libspill.Os.{Os, IsPosix}
use libspill.Store.{Store}
use libspill.Store.Write.{Overwrites, Writes, wrote}

module _ (os : Os) (posix : IsPosix os) where
  pub wrote_done :
      (s : Store os) (key : List ℕ) (off : ℕ) (bs : List ℕ) (res : Store os × Option Status)
      → res.1 ≡ some done
      → Writes os posix s key off bs res
      → (key_ok (some key) ≡ true) × Overwrites os posix s key off bs done res.0
  wrote_done s key off bs res e (Writes.invalid bad q) =
      let z : some inval ≡ some done = sym (ap (λ (p : Store os × Option Status). p.1) q) ∙ e in
      absurd cc
  wrote_done s key off bs res e (wrote st good q w) =
      let d : st ≡ done = let z : some st ≡ some done = sym q ∙ e in cc in (good, rw (← d) w)
