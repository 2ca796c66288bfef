-- ===== src/Toc/Laws.antt =====
-- The operations of src/toc.c as operations on a map from keys to records.
use libspill.Base.{
  ℕ, ◌+◌, ◌*◌, ◌≤◌, ◌<◌, ◌≡◌, refl, inl, inr, true, Option, none, some, List, [], arith,
  if◌then◌else◌, length, set, length-set, replicate, length-replicate, Bool-cases, Option-cases,
  ◌∙◌,
}
use libspill.Alloc.{granted, later_grants}
use libspill.Toc.{
  Rec, Table, key_eq, bucket_of, find_chain, chain_at, toc_find, toc_grow, toc_insert, insert_fresh,
  is_full, fresh_rec, toc_unlink, toc_write, drop_chain, write_chain,
}
use libspill.Toc.Chain.{
  key_eq_iff, key_eq_refl, find-push, find-set, find-set_self, find-write_chain, find-drop_chain,
}
use libspill.Toc.Homed.{
  Homed, push-Homed, write-Homed, drop-Homed, length-push, count-drop_chain, find-count_zero,
  count_chain,
}
use libspill.Toc.Grow.{find-rehash, rehash-Homed, length-move_all, flat}
use libspill.Toc.Count.{length-flat-push, length-flat-write, length-flat-drop, length-flat-rehash}

pub record IsTable (t : Table) : Type 0 where
  pub buckets : 0 < length t.tab
  pub homed : Homed t.tab
  pub counted : t.nrec ≡ length (flat t.tab)

-- The map after one key was given a record, or lost it.
abbrev pub bound_to : List ℕ → Option Rec → (List ℕ → Option Rec) → List ℕ → Option Rec
bound_to key o f j = if key_eq key j then o else f j

-- `toc_grow` on a well-formed table, whether or not there is memory: the table is well formed, every
-- key finds what it found before, the record count is unchanged, and on success the number of
-- buckets has doubled.
pub toc_grow-keeps :
    (t : Table)
    → IsTable t
    → IsTable (toc_grow t).0
      × ((key : List ℕ) → toc_find (toc_grow t).0 key ≡ toc_find t key)
      × ((toc_grow t).0.nrec ≡ t.nrec)
      × ((toc_grow t).1 ≡ true → length (toc_grow t).0.tab ≡ length t.tab * 2)
unfolding toc_grow toc_find
toc_grow-keeps t v = elim (Bool-cases (granted t.grants)) [
  | inl g ↦
      let n = length t.tab * 2 in
      let pos : 0 < n = omega (arith, v.buckets) in
      let e = length-move_all t.tab (replicate n []) ∙ length-replicate n [] in
      rw (g, toc_grow)
        (
          record {
            buckets = rw e pos;
            homed = rehash-Homed t.tab n pos v.homed;
            counted =
                rw (length-flat-rehash t.tab n (rw (length-replicate {A = List Rec} n []) pos))
                  v.counted;
          },
          find-rehash t.tab n pos v.homed,
          refl,
          λ _. e,
        )
  | inr g ↦
      rw (g, toc_grow)
        (
          record { buckets = v.buckets; homed = v.homed; counted = v.counted },
          λ key. refl,
          refl,
          λ q. cc,
        )
]

-- How an insertion ends.
pub data Inserted (t : Table) (key : List ℕ) (r : Table × Option Rec) : Type 0 where
  fresh :
      r.1 ≡ some (fresh_rec key)
      → IsTable r.0
      → r.0.nrec ≡ t.nrec + 1
      → ((j : List ℕ) → toc_find r.0 j ≡ bound_to key (some (fresh_rec key)) (toc_find t) j)
      → Inserted t key r
  refused :
      r.1 ≡ none
      → IsTable r.0
      → r.0.nrec ≡ t.nrec
      → ((j : List ℕ) → toc_find r.0 j ≡ toc_find t j)
      → Inserted t key r

insert_fresh-Inserted :
    (t : Table) (key : List ℕ)
    → IsTable t
    → toc_find t key ≡ none
    → Inserted t key (insert_fresh t key)
unfolding insert_fresh toc_find
insert_fresh-Inserted t key v new = elim (Bool-cases (granted t.grants)) [
  | inl g ↦ elim (Bool-cases (granted (later_grants t.grants))) [
    | inl g' ↦
        rw (g, insert_fresh, g')
          (fresh refl
            (record {
              buckets = rw (length-push (fresh_rec key) t.tab) v.buckets;
              homed = push-Homed t.tab (fresh_rec key) v.buckets v.homed new;
              counted = omega (arith, v.counted, length-flat-push t.tab v.buckets (fresh_rec key));
            })
            refl (λ j. find-push t.tab j v.buckets (fresh_rec key)))
    | inr g' ↦
        rw (g, insert_fresh, g')
          (refused refl (record { buckets = v.buckets; homed = v.homed; counted = v.counted }) refl
            (λ j. refl))
  ]
  | inr g ↦
      rw (g, insert_fresh)
        (refused refl (record { buckets = v.buckets; homed = v.homed; counted = v.counted }) refl
          (λ j. refl))
]

Inserted-through :
    (t u : Table) (key : List ℕ) (r : Table × Option Rec)
    → ((j : List ℕ) → toc_find u j ≡ toc_find t j)
    → u.nrec ≡ t.nrec
    → Inserted u key r
    → Inserted t key r
Inserted-through t u key r same n (fresh some_rec v m f) =
    fresh some_rec v (omega arith) (λ j. rw (← same j) (f j))
Inserted-through t u key r same n (refused no_rec v m f) =
    refused no_rec v (omega arith) (λ j. f j ∙ same j)

-- For a well-formed table and a key that is not in it, `ls_toc_insert` either returns a fresh
-- record, and then the table is well formed, counts one record more and finds the fresh record under
-- the key and under every other key what it found before; or it returns nothing, and then the table
-- is well formed, counts as many and finds the same under every key.
pub toc_insert-Inserted :
    (t : Table) (key : List ℕ)
    → IsTable t
    → toc_find t key ≡ none
    → Inserted t key (toc_insert t key)
unfolding toc_insert
toc_insert-Inserted t key v new = elim (Bool-cases (is_full t)) [
  | inr roomy ↦ rw roomy (insert_fresh-Inserted t key v new)
  | inl full ↦
      let (v', same, n, _) = toc_grow-keeps t v in
      elim (Bool-cases (toc_grow t).1) [
        | inl grown ↦
            rw (full, grown)
              (Inserted-through t (toc_grow t).0 key _ same n
                (insert_fresh-Inserted (toc_grow t).0 key v' (same key ∙ new)))
        | inr failed ↦ rw (full, failed) (refused refl v' n same)
      ]
]

-- After `ls_toc_unlink` on a well-formed table, the table is well formed, its record count included,
-- nothing is found under the key, and under every other key what was found before.
pub toc_unlink-find :
    (t : Table) (key : List ℕ)
    → IsTable t
    → IsTable (toc_unlink t key)
      × ((j : List ℕ) → toc_find (toc_unlink t key) j ≡ bound_to key none (toc_find t) j)
unfolding toc_unlink toc_find
toc_unlink-find t key v = elim (Option-cases (find_chain key (chain_at t.tab key))) [
  | inl e ↦ rw (e, toc_unlink) (v, λ j. absent e j)
  | inr (r, e) ↦
      rw (e, toc_unlink)
        (
          record {
            buckets = rw length-set v.buckets;
            homed = drop-Homed t.tab key v.buckets v.homed;
            counted = omega (arith, v.counted, length-flat-drop t.tab v.buckets key r e);
          },
          λ j. removed j,
        )
]
  where
    absent :
        find_chain key (chain_at t.tab key) ≡ none
        → (j : List ℕ)
        → find_chain j (chain_at t.tab j)
          ≡ bound_to key none (λ k. find_chain k (chain_at t.tab k)) j
    absent e j = elim (Bool-cases (key_eq key j)) [
      | inl same ↦ let q = (key_eq_iff key j).0 same in rw (same) (rw q at e)
      | inr other ↦ rw other refl
    ]

    once : count_chain key (chain_at t.tab key) ≤ 1
    once = ground (arith, v.homed key (bucket_of (length t.tab) key))

    removed :
        (j : List ℕ)
        → find_chain j (
            chain_at
              (set t.tab (bucket_of (length t.tab) key) (drop_chain key (chain_at t.tab key)))
              j)
          ≡ bound_to key none (λ k. find_chain k (chain_at t.tab k)) j
    removed j = elim (Bool-cases (key_eq key j)) [
      | inl same ↦
          let q = (key_eq_iff key j).0 same in
          let gone = find-count_zero key _ (count-drop_chain key (chain_at t.tab key) once) in
          let self = find-set_self t.tab key (drop_chain key (chain_at t.tab key)) v.buckets in
          rw (same, ← q, self) gone
      | inr other ↦
          rw other (
            find-set t.tab key j _ v.buckets
              (λ e. find-drop_chain key j (chain_at t.tab key) other))
    ]

-- A store through the pointer that `ls_toc_find` returned for a key: the table stays well formed,
-- the written record is found under its key, and under every other key what was found before.
pub toc_write-find :
    (t : Table) (r q : Rec)
    → IsTable t
    → toc_find t r.key ≡ some q
    → IsTable (toc_write t r)
      × ((j : List ℕ) → toc_find (toc_write t r) j ≡ bound_to r.key (some r) (toc_find t) j)
unfolding toc_write toc_find
toc_write-find t r q v there = (
  record {
    buckets = rw length-set v.buckets;
    homed = write-Homed t.tab r v.buckets v.homed;
    counted = rw (length-flat-write t.tab v.buckets r) v.counted;
  },
  written,
)
  where
    written :
        (j : List ℕ)
        → find_chain j (
            chain_at
              (set t.tab (bucket_of (length t.tab) r.key) (write_chain r (chain_at t.tab r.key)))
              j)
          ≡ bound_to r.key (some r) (λ k. find_chain k (chain_at t.tab k)) j
    written j = elim (Bool-cases (key_eq r.key j)) [
      | inl same ↦
          let e = (key_eq_iff r.key j).0 same in
          let self = find-set_self t.tab r.key (write_chain r (chain_at t.tab r.key)) v.buckets in
          rw (same, ← e, self, find-write_chain r r.key (chain_at t.tab r.key), key_eq_refl, there)
            refl
      | inr other ↦ rw other (
          find-set t.tab r.key j _ v.buckets
            (λ e. find-write_chain r j (chain_at t.tab r.key) ∙ rw other refl))
    ]
