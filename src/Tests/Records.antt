-- ===== src/Tests/Records.antt =====
-- Records of a new store, with a memory tier of 100 bytes and a file in memory: src/store.c.
use libspill.Base.{
  inl, inr, Bool-cases, Option-cases, ◌+₆₄◌, ◌-₆₄◌, ℕ, ◌≡◌, refl, true, false, none, some, List, [],
  ◌∷◌, ◌+◌, ◌*◌, ◌≤◌, length, arith, ap, sym, ◌∙◌,
}
use libspill.Toc.{
  write_chain, toc_write, push, key_eq, find_chain, hash_loop, hash_of, bucket_of, chain_at,
  is_full, key_ok, insert_fresh, toc_insert, Rec, new_table, toc_find,
}
use libspill.Toc.Chain.{key_eq_iff}
use libspill.TocFile.RoundTrip.{new_table-IsTable}
use libspill.Status.{done}
use libspill.Options.{Opts, posix, explicit, only_local, negsuc}
use libspill.Extents.{Space}
use libspill.Scatter.{scatter_write, copy_in}
use libspill.Spill.{lru_touch, lru_drop}
use libspill.Spill.Lru.{has_key, are_distinct}
use libspill.Store.{ls_report, unpin, pin, Store, find_or_insert}
use libspill.Store.Capacity.{grow_mem, try_memory, make_room, in_memory, ensure_cap, evict_to}
use libspill.Store.Transfer.{
  transfer_write, finish, after_cap, with_capacity, begin_write, rw_write, rw_write_bytes,
}
use libspill.Store.Append.{append_to}
use libspill.Store.Invariant.{IsStore, rec_size, toc_find-key}
use libspill.Store.Listed.{IsTier}
use libspill.Store.Insert.{size_of}
use libspill.Store.Evict.{Bounded}
use libspill.Store.Evict.Loop.{IsReady, Evicts, evict_to-Evicts}
use libspill.Store.Ensure.{Ensured}
use libspill.Store.Ensure.Cap.{ensure_cap-Ensured}
use libspill.Store.Begin.{CanWrite}
use libspill.Store.Write.{Overwrites, Writes, rw_write-Overwrites}
use libspill.Store.RoundTrip.{wrote_done}
use libspill.Store.Keys.{reserve_in}
use libspill.Store.Reserved.{Reserves, reserve_in-find_or_insert}
use libspill.Store.Appended.{Appends, append_to-find_or_insert}
use libspill.Tests.Ram.{ram, ram-IsPosix}

abbrev key_a : List ℕ
key_a = 97 ∷ []

abbrev key_b : List ℕ
key_b = 98 ∷ []

abbrev opts : Opts
opts = record {
  version = 3;
  kind = posix;
  mode = explicit;
  parallel = only_local;
  rank = negsuc 0;
  memory_budget = 100;
  dir = none;
  direct_io = false;
  log = true;
  exact_name = false;
  durable_close = false;
}

abbrev new_space : Space ram
new_space = record {
  file = record { at = λ x. 7; end = 4096; interrupts = 1 };
  alloc = record { fl = []; flcap = 0; file_end = 4096; teardown = false; grants = []; cuts = [] };
  retired = [];
  retcap = 0;
  buffers = [];
  cut_errors = [];
}

abbrev new_store : Store ram
new_store = record {
  space = new_space;
  table = new_table [];
  tier = record { resident = 0; lru = [] };
  opts = opts;
  reports = [];
}

nothing : (key : List ℕ) → toc_find new_store.table key ≡ none
nothing = (new_table-IsTable []).1

new_store-IsStore : IsStore ram ram-IsPosix new_store
new_store-IsStore = record {
  table = (new_table-IsTable []).0;
  sound = record { sorted = omega arith; word = omega arith };
  live = refl;
  holding = λ key r f. absurd (let z : none ≡ some r = sym (nothing key) ∙ f in cc);
  disjoint = λ k j r q f g ne x i. absurd (let z : none ≡ some r = sym (nothing k) ∙ f in cc);
}

new_store-IsTier : IsTier ram new_store
unfolding are_distinct has_key
new_store-IsTier = record { apart = refl; resident = λ k h. absurd cc }

new_store-Bounded : Bounded ram ram-IsPosix 1000 new_store
unfolding rec_size
new_store-Bounded j n e = let z : none ≡ some n = sym (ap rec_size (nothing j)) ∙ e in absurd cc

new_store-CanWrite : (hi : ℕ) → hi ≤ 1000 → CanWrite ram ram-IsPosix 1000 hi new_store
new_store-CanWrite hi l = record {
  store = new_store-IsStore;
  tier = new_store-IsTier;
  bounded = new_store-Bounded;
  small = omega arith;
  reach = omega (arith, l);
  end = omega arith;
}

rw_write-Overwrites_example :
    Writes ram ram-IsPosix new_store key_a 2
      (5 ∷ 6 ∷ 7 ∷ [])
      (rw_write ram new_store (some key_a) 2 3 (some (5 ∷ 6 ∷ 7 ∷ [])))
rw_write-Overwrites_example =
    rw_write-Overwrites ram ram-IsPosix 1000 new_store key_a 2 (5 ∷ 6 ∷ 7 ∷ [])
      (new_store-CanWrite (2 + 3) (omega arith))

abbrev written : Store ram
written = (rw_write ram new_store (some key_a) 2 3 (some (5 ∷ 6 ∷ 7 ∷ []))).0

-- what the write left, by running it
written_run :
    ((rw_write ram new_store (some key_a) 2 3 (some (5 ∷ 6 ∷ 7 ∷ []))).1 ≡ some done)
    × (written.tier.lru ≡ key_a ∷ [])
    × (written.space.alloc.file_end ≡ 4096)
    × (rec_size (toc_find written.table key_a) ≡ some 5)
unfolding rw_write rw_write_bytes key_ok begin_write with_capacity after_cap find_or_insert
    toc_insert insert_fresh is_full toc_find chain_at bucket_of hash_of hash_loop find_chain key_eq
    push ensure_cap in_memory make_room try_memory grow_mem pin unpin finish transfer_write
    scatter_write copy_in toc_write write_chain lru_touch lru_drop ls_report new_table rec_size
    ◌+₆₄◌ ◌-₆₄◌
written_run = (refl, refl, refl, refl)

written-Overwrites : Overwrites ram ram-IsPosix new_store key_a 2 (5 ∷ 6 ∷ 7 ∷ []) done written
written-Overwrites =
    (wrote_done ram ram-IsPosix new_store key_a 2 (5 ∷ 6 ∷ 7 ∷ []) _ written_run.0 (
      rw_write-Overwrites ram ram-IsPosix 1000 new_store key_a 2 (5 ∷ 6 ∷ 7 ∷ [])
        (new_store-CanWrite (2 + 3) (omega arith)))).1

nothing_b : size_of (toc_find new_store.table key_b) ≡ 0
unfolding size_of
nothing_b = ap size_of (nothing key_b)

append_to-find_or_insert_example :
    Appends ram ram-IsPosix new_store key_b
      (8 ∷ 9 ∷ [])
      (append_to ram key_b (8 ∷ 9 ∷ []) (find_or_insert ram new_store key_b))
append_to-find_or_insert_example =
    append_to-find_or_insert ram ram-IsPosix 1000 new_store key_b (8 ∷ 9 ∷ [])
      (new_store-CanWrite (size_of (toc_find new_store.table key_b) + 2) (omega (arith, nothing_b)))

written-Bounded : Bounded ram ram-IsPosix 1000 written
unfolding size_of rec_size
written-Bounded j n e = elim (Bool-cases (key_eq key_a j)) [
  | inl hit ↦
      let same : key_a ≡ j = (key_eq_iff key_a j).0 hit in
      let z : some 5 ≡ some n =
        sym written_run.3 ∙ ap (λ k. rec_size (toc_find written.table k)) same ∙ e in
      let five : 5 ≡ n = cc in omega (arith, five)
  | inr miss ↦
      let z : none ≡ some n =
        sym (ap rec_size (nothing j)) ∙ sym ((written-Overwrites.others j miss).size) ∙ e in
      absurd cc
]

written-IsReady : IsReady ram ram-IsPosix 1000 written
written-IsReady = record {
  store = written-Overwrites.store;
  tier = written-Overwrites.tier;
  bounded = written-Bounded;
  end =
      let n : length written.tier.lru ≡ 1 = ap length written_run.1 in
      let k : length written.tier.lru * 5096 ≡ 5096 = ap (λ z. z * 5096) n in
      omega (arith, written_run.2, k);
}

evict_to-Evicts_example : Evicts ram ram-IsPosix 1000 2 none written (evict_to ram written 2 none)
evict_to-Evicts_example =
    evict_to-Evicts ram ram-IsPosix written 2 1000 none (omega arith) written-IsReady

written_a : (r : Rec) × (toc_find written.table key_a ≡ some r)
unfolding rec_size
written_a = elim (Option-cases (toc_find written.table key_a)) [
  | inl gone ↦ absurd (let z : none ≡ some 5 = sym (ap rec_size gone) ∙ written_run.3 in cc)
  | inr found ↦ found
]

-- 200 bytes do not fit into the memory tier
ensure_cap-Ensured_example :
    Ensured ram ram-IsPosix written written_a.0 200 (ensure_cap ram written written_a.0 200)
ensure_cap-Ensured_example =
    ensure_cap-Ensured ram ram-IsPosix 1000 written written_a.0 200 (omega arith) written-IsReady
      (ap (toc_find written.table) (toc_find-key written.table key_a written_a.0 written_a.1)
        ∙ written_a.1)
      (omega arith)
      (let n : length written.tier.lru ≡ 1 = ap length written_run.1 in
        let k : (length written.tier.lru + 1) * 5096 ≡ 10192 = ap (λ z. (z + 1) * 5096) n in
        omega (arith, written_run.2, k))

reserve_in-find_or_insert_example :
    Reserves ram ram-IsPosix new_store key_b 50
      (reserve_in ram key_b 50 (find_or_insert ram new_store key_b))
reserve_in-find_or_insert_example =
    reserve_in-find_or_insert ram ram-IsPosix 1000 new_store key_b 50
      (new_store-CanWrite 50 (omega arith))
