-- ===== src/Store/Evict/Loop.antt =====
-- src/store.c: the loop of `ls_evict_to`.
use libspill.Base.{
  ℕ, zero, suc, ◌+◌, ◌-◌, ◌*◌, ◌^◌, ◌≤◌, ◌<◌, ◌≡◌, refl, ◌⊎◌, inl, inr, Option, none, some, List,
  arith, ltb, Bool-cases, length, ap, sym, ◌∙◌,
}
use libspill.Toc.{Rec}
use libspill.Status.{Status, done}
use libspill.Os.{Os, IsPosix}
use libspill.Spill.{spill}
use libspill.Spill.Laws.{spill-Spills}
use libspill.Spill.Lru.{length-lru_drop}
use libspill.Store.{Store}
use libspill.Store.Capacity.{victim, spill_rec, and_evict, evict_one, evict_loop, evict_to}
use libspill.Store.Invariant.{IsStore, rec_size}
use libspill.Store.Listed.{IsTier}
use libspill.Store.Evict.{
  IsVictim, victim-IsVictim, AllHeld, victim-none, Bounded, Bounded-view, Evicted, Evicted-none,
  Evicted-trans, SpillsOne, with_spill-SpillsOne,
}

module _ (os : Os) (posix : IsPosix os) where
  -- How `ls_evict_to` ends.
  pub record Evicts (limit budget : ℕ) (keep : Option (List ℕ)) (s : Store os)
      (res : Store os × Option Status) : Type 0 where
    pub status : Status
    pub reported : res.1 ≡ some status
    pub evicted : Evicted os posix limit (length s.tier.lru) keep s res.0
    pub enough :
        status ≡ done → (res.0.tier.resident ≤ budget) ⊎ AllHeld os res.0 keep res.0.tier.lru

  -- A store in which the loop may start.
  pub record IsReady (limit : ℕ) (s : Store os) : Type 0 where
    pub store : IsStore os posix s
    pub tier : IsTier os s
    pub bounded : Bounded os posix limit s
    pub end : s.space.alloc.file_end + length s.tier.lru * (limit + 4096) ≤ 2 ^ 62

  module _ (limit budget : ℕ) (small : limit ≤ 2 ^ 62) (keep : Option (List ℕ)) where
    spill_rec-SpillsOne :
        (s : Store os) (r : Rec)
        → IsReady limit s
        → IsVictim os s keep s.tier.lru r
        → SpillsOne os posix limit keep s (spill_rec os s r)
    unfolding spill_rec rec_size
    spill_rec-SpillsOne s r y w =
        let b : r.size ≤ limit = y.bounded r.key r.size (ap rec_size w.found) in
        with_spill-SpillsOne os posix limit keep s r y.store y.tier w y.bounded
          (spill os s.space s.tier r)
          (spill-Spills os posix s.space s.tier r (y.store.holding r.key r w.found)
            (omega (arith, b, small)) y.store.sound y.store.live (omega (arith, y.end)))

    IsReady-next :
        (s u : Store os)
        → IsReady limit s
        → Evicted os posix limit 1 keep s u
        → length u.tier.lru + 1 ≡ length s.tier.lru
        → IsReady limit u
    IsReady-next s u y e l =
        let n : length s.tier.lru * (limit + 4096)
            ≡ length u.tier.lru * (limit + 4096) + (limit + 4096) =
          ap (λ z. z * (limit + 4096)) (sym l) ∙ grind arith in
        record {
          store = e.store;
          tier = e.tier;
          bounded = Bounded-view os posix limit s u e.view y.bounded;
          end = omega (arith, y.end, e.end, n);
        }

    and_evict-Evicts :
        (s : Store os) (loop : Store os → Store os × Option Status)
        (res : Store os × Rec × Option Status)
        → 0 < length s.tier.lru
        → SpillsOne os posix limit keep s res
        → (length res.0.tier.lru + 1 ≡ length s.tier.lru
            → Evicts limit budget keep res.0 (loop res.0))
        → Evicts limit budget keep s (and_evict os loop res)
    and_evict-Evicts s loop (u, r, none) l w k = absurd (let e = w.reported in cc)
    and_evict-Evicts s loop (u, r, some done) l w k =
        let is_done : w.status ≡ done = let e = w.reported in cc in
        let n = w.shorter is_done in
        let rest = k n in
        let all =
          Evicted-trans os posix limit 1 (length u.tier.lru) keep s u (loop u).0 w.evicted
            rest.evicted in
        let rounds : 1 + length u.tier.lru ≡ length s.tier.lru = omega (arith, n) in
        record {
          status = rest.status;
          reported = rest.reported;
          evicted = rw (← rounds) all;
          enough = rest.enough;
        }
    and_evict-Evicts s loop (u, r, some st) l w k =
        let all = Evicted-trans os posix limit 1 (length s.tier.lru - 1) keep s u u w.evicted (
          Evicted-none os posix limit (length s.tier.lru - 1) keep u w.evicted.store
            w.evicted.tier) in
        let rounds : 1 + (length s.tier.lru - 1) ≡ length s.tier.lru = omega (arith, l) in
        record {
          status = st;
          reported = refl;
          evicted = rw (← rounds) all;
          enough = λ e. absurd cc;
        }

    listed-some : (s : Store os) (r : Rec) → IsVictim os s keep s.tier.lru r → 0 < length s.tier.lru
    listed-some s r w = let n = length-lru_drop r.key s.tier.lru w.listed in omega (arith, n)

    -- The loop, over what it calls for the rounds that are left.
    evict_one-Evicts :
        (s : Store os) (loop : Store os → Store os × Option Status) (o : Option Rec)
        → IsReady limit s
        → victim os s keep s.tier.lru ≡ o
        → ((u : Store os)
            → IsReady limit u
            → length u.tier.lru + 1 ≡ length s.tier.lru
            → Evicts limit budget keep u (loop u))
        → Evicts limit budget keep s (evict_one os loop s o)
    evict_one-Evicts s loop none y e k = record {
      status = done;
      reported = refl;
      evicted = Evicted-none os posix limit (length s.tier.lru) keep s y.store y.tier;
      enough = λ z. inr (victim-none os s keep s.tier.lru e);
    }
    evict_one-Evicts s loop (some r) y e k =
        let w = victim-IsVictim os s keep s.tier.lru r e in
        let one = spill_rec-SpillsOne s r y w in
        and_evict-Evicts s loop (spill_rec os s r) (listed-some s r w) one
          (λ n. k (spill_rec os s r).0 (IsReady-next s (spill_rec os s r).0 y one.evicted n) n)

    evict_loop-Evicts :
        (fuel : ℕ) (s : Store os)
        → length s.tier.lru < fuel
        → IsReady limit s
        → Evicts limit budget keep s (evict_loop os budget keep fuel s)
    unfolding evict_loop
    evict_loop-Evicts zero s l y = absurd (omega arith)
    evict_loop-Evicts (suc fuel) s l y = elim (Bool-cases (ltb budget s.tier.resident)) [
      | inl over ↦ rw over (
          evict_one-Evicts s (evict_loop os budget keep fuel) (victim os s keep s.tier.lru) y refl
            (λ u z n. evict_loop-Evicts fuel u (omega (arith, l, n)) z))
      | inr under ↦ rw under (record {
        status = done;
        reported = refl;
        evicted = Evicted-none os posix limit (length s.tier.lru) keep s y.store y.tier;
        enough = λ z. inl (ground (arith, under));
      })
    ]

  -- For a well-formed store whose records have at most `limit` bytes, with `limit` at most 2 ^ 62 and
  -- room for spilling every record of the LRU list below 2 ^ 62, and on a POSIX kernel: `ls_evict_to`
  -- ends with a status within as many rounds as the list is long, and one more. Whatever the status,
  -- the store is well formed, every key shows the same size, attribute and bytes, and a record that is
  -- pinned or to be kept is unchanged; if `resident` was the sum of the buffers of the records on the
  -- LRU list, it is that again. On success it is at most `budget`, or every record that is left on the
  -- list is pinned or to be kept.
  pub evict_to-Evicts :
      (s : Store os) (budget limit : ℕ) (keep : Option (List ℕ))
      → limit ≤ 2 ^ 62
      → IsReady limit s
      → Evicts limit budget keep s (evict_to os s budget keep)
  unfolding evict_to
  evict_to-Evicts s budget limit keep small y =
      evict_loop-Evicts limit budget small keep (length s.tier.lru + 1) s (omega arith) y
