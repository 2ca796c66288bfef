-- ===== src/Store/Appended.antt =====
-- src/store.c: what `ls_append` leaves of a well-formed store.
use Prim.Native.String.{String}
use libspill.Base.{
  ℕ, ◌+◌, ◌≡◌, ◌≢◌, refl, false, Option, none, some, List, arith, ltb, length, ap, sym, ◌∙◌, ◌+₆₄◌,
  +₆₄-eq,
}
use libspill.Toc.{Rec, toc_find}
use libspill.Status.{Status, done, no_memory, Result, ok, fail}
use libspill.Os.{Os, IsPosix}
use libspill.Store.{Store, find_or_insert}
use libspill.Store.Append.{at_offset, append_to}
use libspill.Store.Insert.{size_of, SameView-SameBytes, Found, found, find_or_insert-Found}
use libspill.Store.Begin.{CanWrite, with_capacity-Begins}
use libspill.Store.Write.{Overwrites, Wrote, transfer_write-Wrote, Unchanged-Overwrites}

module _ (os : Os) (posix : IsPosix os) where
  -- How an append ends: with the old size as the offset, or an error.
  pub record Appends (s : Store os) (key : List ℕ) (bs : List ℕ)
      (res : Store os × Option (Result ℕ)) : Type 0 where
    pub status : Status
    pub overwrites : Overwrites os posix s key (size_of (toc_find s.table key)) bs status res.0
    pub placed : status ≡ done → res.1 ≡ some (ok (size_of (toc_find s.table key)))
    pub failed : status ≢ done → res.1 ≡ some (fail status)

  at_offset-Appends :
      (s : Store os) (key : List ℕ) (off : ℕ) (bs : List ℕ) (res : Store os × Option Status)
      → off ≡ size_of (toc_find s.table key)
      → Wrote os posix s key off bs res
      → Appends s key bs (at_offset os off res)
  at_offset-Appends s key off bs (u, none) e w = absurd (let z = w.reported in cc)
  at_offset-Appends s key off bs (u, some done) e w =
      let same : w.status ≡ done = let z = w.reported in cc in
      record {
        status = done;
        overwrites = rw (← e, ← same) w.overwrites;
        placed = λ d. rw e refl;
        failed = λ n. absurd (n refl);
      }
  at_offset-Appends s key off bs (u, some st) e w =
      let same : w.status ≡ st = let z = w.reported in cc in
      record {
        status = st;
        overwrites = rw (← e, ← same) w.overwrites;
        placed = λ d. absurd cc;
        failed = λ n. refl;
      }

  append_to-Appends :
      (limit : ℕ) (s : Store os) (key : List ℕ) (bs : List ℕ) (res : Store os × Option Rec)
      → CanWrite os posix limit (size_of (toc_find s.table key) + length bs) s
      → Found os posix s key res
      → Appends s key bs (append_to os key bs res)
  unfolding append_to size_of
  append_to-Appends limit s key bs (t, none) y (found r e k f v l sp ti mine others new) = absurd cc
  append_to-Appends limit s key bs (t, some q) y (Found.refused e v l view) = absurd cc
  append_to-Appends limit s key bs (t, none) y (Found.refused e v l view) = record {
    status = no_memory;
    overwrites =
        Unchanged-Overwrites os posix s t key (size_of (toc_find s.table key)) bs no_memory
          (λ d. cc)
          (record {
            store = v;
            tier = l;
            mine = SameView-SameBytes os posix s t key (view key);
            others = λ j miss. view j;
          });
    placed = λ d. absurd cc;
    failed = λ n. refl;
  }
  append_to-Appends limit s key bs (t, some q) y (found r e k f v l sp ti mine others new) =
      let same : r ≡ q = cc in
      let at : toc_find t.table key ≡ some r = ap (toc_find t.table) (sym k) ∙ f in
      let size : r.size ≡ size_of (toc_find s.table key) = sym (ap size_of at) ∙ mine.size in
      let sum = +₆₄-eq r.size (length bs) (omega (arith, y.reach, size)) in
      let fits : ltb (r.size +₆₄ length bs) r.size ≡ false = ground (arith, sum) in
      let msg : String = "reserving space for append" in
      let b =
        with_capacity-Begins os posix limit s key r.size (length bs) msg (r.size + length bs)
          (t, some r) (rw size y) (found r refl k f v l sp ti mine others new) in
      let w = transfer_write-Wrote os posix s key r.size bs "append" _ b in
      rw (← same, fits, sum) (at_offset-Appends s key r.size bs _ size w)

  -- In a store where a write of the buffer at the end of the record may start, on a POSIX kernel: an
  -- append, after its guards, ends; it does to the map from keys to bytes what a write at the old size
  -- of the record does (0 where there is none). It reports the old size as the offset exactly if that
  -- write succeeds, and else the error.
  pub append_to-find_or_insert :
      (limit : ℕ) (s : Store os) (key : List ℕ) (bs : List ℕ)
      → CanWrite os posix limit (size_of (toc_find s.table key) + length bs) s
      → Appends s key bs (append_to os key bs (find_or_insert os s key))
  append_to-find_or_insert limit s key bs y =
      append_to-Appends limit s key bs (find_or_insert os s key) y
        (find_or_insert-Found os posix s key y.store y.tier)
