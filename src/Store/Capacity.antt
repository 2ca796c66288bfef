-- ===== src/Store/Capacity.antt =====
-- src/store.c: `ls_evict_to`, `ls_spill_all`, `ensure_cap`.
use libspill.Base.{
  ℕ, zero, suc, ◌+◌, ◌-◌, Bool, true, false, ◌&&◌, ◌||◌, Option, none, some, List, [], ◌∷◌, ◌++◌,
  ltb, leb, if◌then◌else◌, ◌==◌, length, replicate, ◌+₆₄◌, ◌-₆₄◌,
}
use libspill.Alloc.{granted}
use libspill.Toc.{Rec, key_eq, toc_find}
use libspill.Status.{Status, done}
use libspill.Os.{Os}
use libspill.Extents.{Space, ensure_extents, asked}
use libspill.Spill.{Tier, spill, lru_touch}
use libspill.Store.{Store, put}

module _ (os : Os) where
  abbrev pub is_kept : Option (List ℕ) → List ℕ → Bool
  is_kept none key = false
  is_kept (some k) key = key_eq k key

  -- the record of one entry of the LRU list, if it may go
  unfoldable pub evictable : Store os → Option (List ℕ) → List ℕ → Option Rec
  evictable s keep key = elim (toc_find s.table key) [
    | none ↦ none
    | some r ↦ if is_kept keep key || ltb 0 r.busy then none else some r
  ]

  -- the walk from the tail: the list is most recently used first
  unfoldable pub victim : Store os → Option (List ℕ) → List (List ℕ) → Option Rec
  victim s keep [] = none
  victim s keep (key ∷ keys) = elim (victim s keep keys) [
    | some r ↦ some r
    | none ↦ evictable s keep key
  ]

  abbrev pub with_spill :
      Store os → Space os × Tier × Rec × Option Status → Store os × Rec × Option Status
  with_spill s (sp, t, r, st) = (put os (record s { space = sp; tier = t }) r, r, st)

  unfoldable pub spill_rec : Store os → Rec → Store os × Rec × Option Status
  spill_rec s r = with_spill s (spill os s.space s.tier r)

  abbrev pub and_evict :
      (Store os → Store os × Option Status)
      → Store os × Rec × Option Status
      → Store os × Option Status
  and_evict loop (s, r, some done) = loop s
  and_evict loop (s, r, some e) = (s, some e)
  and_evict loop (s, r, none) = (s, none)

  -- by the victim; `done` when there is nothing to evict
  abbrev pub evict_one :
      (Store os → Store os × Option Status) → Store os → Option Rec → Store os × Option Status
  evict_one loop s none = (s, some done)
  evict_one loop s (some v) = and_evict loop (spill_rec s v)

  -- `none` means that the fuel ran out
  unfoldable pub evict_loop : ℕ → Option (List ℕ) → ℕ → Store os → Store os × Option Status
  unfolding victim spill_rec
  evict_loop budget keep zero s = if ltb budget s.tier.resident then (s, none) else (s, some done)
  evict_loop budget keep (suc fuel) s =
      let rest = evict_one (evict_loop budget keep fuel) s (victim s keep s.tier.lru) in
      if ltb budget s.tier.resident then rest else (s, some done)

  -- every round takes one record off the LRU list, and the last one finds it without a victim
  unfoldable pub evict_to : Store os → ℕ → Option (List ℕ) → Store os × Option Status
  unfolding evict_loop
  evict_to s budget keep = evict_loop budget keep (length s.tier.lru + 1) s

  unfoldable pub spill_all : Store os → Store os × Option Status
  unfolding evict_to
  spill_all s = evict_to s 0 none

  abbrev pub mem_cap : Rec → ℕ
  mem_cap r = elim r.mem [ none ↦ 0 | some m ↦ length m ]

  abbrev pub mem_bytes : Rec → List ℕ
  mem_bytes r = elim r.mem [ none ↦ [] | some m ↦ m ]

  abbrev pub is_resident : Rec → Bool
  is_resident r = elim r.mem [ none ↦ false | some m ↦ true ]

  -- `realloc` succeeded: the buffer is longer, and its new part is zero
  unfoldable pub grow_mem : Store os → Rec → ℕ → Store os × Rec
  grow_mem s r need =
      let have = mem_cap r in
      let r' = record r { mem = some (mem_bytes r ++ replicate (need - have) 0) } in
      let tier : Tier = record {
        resident = s.tier.resident -₆₄ have +₆₄ need;
        lru = lru_touch r.key s.tier.lru;
      } in
      (put os (record s { space = asked os s.space; tier = tier }) r', r')

  -- The memory tier is tried, after making room in it. `none` means that it does not take the record.
  unfoldable pub make_room : Store os → Rec → ℕ → Store os
  unfolding evict_to
  make_room s r need =
      let have = mem_cap r in
      let budget = s.opts.memory_budget in
      if ltb budget (s.tier.resident -₆₄ have +₆₄ need)
      then (evict_to s (budget -₆₄ need +₆₄ have) (some r.key)).0
      else s

  unfoldable pub try_memory : Store os → Rec → ℕ → Store os × Option Rec
  unfolding grow_mem
  try_memory s r need =
      if leb (s.tier.resident -₆₄ mem_cap r +₆₄ need) s.opts.memory_budget
      then (if granted s.space.alloc.grants
          then (let (s', r') = grow_mem s r need in (s', some r'))
          else (record s { space = asked os s.space }, none))
      else (s, none)

  unfoldable pub in_memory : Store os → Rec → ℕ → Store os × Option Rec
  unfolding make_room try_memory
  in_memory s r need =
      if ltb 0 s.opts.memory_budget && r.ncap == 0 && leb need s.opts.memory_budget
      then try_memory (make_room s r need) r need
      else (s, none)

  abbrev pub with_extents :
      Store os → Space os × Rec × Option Status → Store os × Rec × Option Status
  with_extents s (sp, r, st) = (put os (record s { space = sp }) r, r, st)

  abbrev pub then_extents : ℕ → Store os × Rec × Option Status → Store os × Rec × Option Status
  then_extents need (s, r, some done) = with_extents s (ensure_extents os need s.space r)
  then_extents need (s, r, some e) = (s, r, some e)
  then_extents need (s, r, none) = (s, r, none)

  -- what the memory tier does not take goes to extents; a resident record is spilled first
  abbrev pub or_extents : ℕ → Rec → Store os × Option Rec → Store os × Rec × Option Status
  or_extents need r (s, some r') = (s, r', some done)
  or_extents need r (s, none) =
      if is_resident r
      then then_extents need (spill_rec s r)
      else with_extents s (ensure_extents os need s.space r)

  unfoldable pub ensure_cap : Store os → Rec → ℕ → Store os × Rec × Option Status
  unfolding in_memory spill_rec
  ensure_cap s r need =
      let ready = if is_resident r then leb need (mem_cap r) else leb need r.ext_total in
      if ready then (s, r, some done) else or_extents need r (in_memory s r need)
