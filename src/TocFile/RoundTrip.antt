-- ===== src/TocFile/RoundTrip.antt =====
-- The table of contents, written by `toc_serialise` and read by `toc_load` into a new table.
use libspill.Base.{
  ℕ, zero, suc, ◌^◌, ◌≤◌, ◌<◌, ◌≡◌, refl, inl, inr, Bool, true, false, Option, none, some, List, [],
  ◌∷◌, ◌++◌, arith, if◌then◌else◌, length, get_or, replicate, Bool-cases, ap, ◌∙◌,
}
use mathlib.Core.List.{append_assoc, append-nil}
use libspill.Toc.{
  new_table, Rec, Table, key_eq, find_chain, chain_at, toc_find, toc_insert, toc_write, fresh_rec,
  insert_fresh, is_full, toc_grow, bucket_of,
}
use libspill.Toc.Homed.{count_chain, find-count_zero}
use libspill.Toc.Grow.{flat, find-flat, or_found}
use libspill.Toc.Chain.{key_eq_refl}
use libspill.Toc.Laws.{
  IsTable, Inserted, fresh, refused, toc_insert-Inserted, toc_write-find, bound_to,
}
use libspill.Status.{ok}
use libspill.TocFile.{put_rec, put_chain, put_tab, load_one, toc_load, toc_serialise}
use libspill.TocFile.Fields.{Storable, persisted, reload-persisted, load_one-put}

-- With memory at hand nothing is refused, and there is memory at hand afterwards.
insert_fresh-grants :
    (t : Table) (key : List ℕ)
    → t.grants ≡ []
    → ((insert_fresh t key).1 ≡ some (fresh_rec key)) × ((insert_fresh t key).0.grants ≡ [])
unfolding insert_fresh
insert_fresh-grants t key g = rw (g, insert_fresh) (refl, refl)

toc_insert-grants :
    (t : Table) (key : List ℕ)
    → t.grants ≡ []
    → ((toc_insert t key).1 ≡ some (fresh_rec key)) × ((toc_insert t key).0.grants ≡ [])
unfolding toc_insert
toc_insert-grants t key g = elim (Bool-cases (is_full t)) [
  | inr roomy ↦ rw roomy (insert_fresh-grants t key g)
  | inl full ↦
      let grown : (toc_grow t).1 ≡ true = unfold toc_grow in ground arith in
      let kept : (toc_grow t).0.grants ≡ [] = unfold toc_grow in ground arith in
      rw (full, grown) (insert_fresh-grants (toc_grow t).0 key kept)
]

persisted-key : (r : Rec) → (persisted r).key ≡ r.key
unfolding persisted
persisted-key r = refl

-- What reading one record does to the table.
record Loads (t : Table) (r : Rec) (u : Table) : Type 0 where
  table : IsTable u
  memory : u.grants ≡ []
  find : (j : List ℕ) → toc_find u j ≡ bound_to r.key (some (persisted r)) (toc_find t) j

Inserted-find :
    (t : Table) (key : List ℕ) (r : Table × Option Rec)
    → r.1 ≡ some (fresh_rec key)
    → Inserted t key r
    → IsTable r.0
      × ((j : List ℕ) → toc_find r.0 j ≡ bound_to key (some (fresh_rec key)) (toc_find t) j)
Inserted-find t key r e (fresh s v n f) = (v, f)
Inserted-find t key r e (refused s v n f) = cc

load_one-Loads :
    (file_end : ℕ) (t : Table) (r : Rec) (rest : List ℕ)
    → file_end < 2 ^ 64
    → Storable file_end r
    → IsTable t
    → t.grants ≡ []
    → toc_find t r.key ≡ none
    → (u : Table) × (load_one file_end t (put_rec r ++ rest) ≡ ok (u, rest)) × Loads t r u
load_one-Loads file_end t r rest b s v g new =
    let (some_rec, memory) = toc_insert-grants t r.key g in
    let (v', f) = Inserted-find t r.key _ some_rec (toc_insert-Inserted t r.key v new) in
    let t' : Table = record (toc_insert t r.key).0 { grants = [] } in
    let v'' : IsTable t' = record {
      buckets = v'.buckets;
      homed = v'.homed;
      counted = v'.counted;
    } in
    let f' : (j : List ℕ) → toc_find t' j ≡ bound_to r.key (some (fresh_rec r.key)) (toc_find t) j =
      unfold toc_find in f in
    let there : toc_find t' (persisted r).key ≡ some (fresh_rec r.key) =
      rw (persisted-key r, f', key_eq_refl) refl in
    let (w, h) = toc_write-find t' (persisted r) (fresh_rec r.key) v'' there in
    (
      toc_write t' (persisted r),
      load_one-put file_end t r (fresh_rec r.key) rest b s some_rec memory
          ∙ ap (λ z. ok (toc_write t' z, rest)) (reload-persisted r),
      record {
        table = w;
        memory = unfold toc_write in refl;
        find = λ j.
            h j
            ∙ simp (persisted-key r, f')
                (overwrite (key_eq r.key j) (some (persisted r)) (some (fresh_rec r.key))
                  (toc_find t j));
      },
    )
  where
    overwrite :
        (c : Bool) (a b d : Option Rec)
        → (if c then a else (if c then b else d)) ≡ (if c then a else d)
    overwrite true a b d = refl
    overwrite false a b d = refl

abbrev pub AllStorable : ℕ → List Rec → Type 0
AllStorable file_end [] = Unit {0}
AllStorable file_end (r ∷ rs) = Storable file_end r × AllStorable file_end rs

unfoldable pub map_rec : Option Rec → Option Rec
map_rec none = none
map_rec (some r) = some (persisted r)

record LoadsAll (t : Table) (rs : List Rec) (u : Table) : Type 0 where
  table : IsTable u
  find : (j : List ℕ) → toc_find u j ≡ or_found (map_rec (find_chain j rs)) (toc_find t j)

load_list :
    (file_end : ℕ) (t : Table) (rs : List Rec) (rest : List ℕ)
    → file_end < 2 ^ 64
    → AllStorable file_end rs
    → IsTable t
    → t.grants ≡ []
    → ((j : List ℕ) → count_chain j rs ≤ 1)
    → ((j : List ℕ) → 0 < count_chain j rs → toc_find t j ≡ none)
    → (u : Table) × (toc_load file_end t (put_chain rs ++ rest) (length rs) ≡ ok u)
      × LoadsAll t rs u
unfolding toc_load put_chain
load_list file_end t [] rest b s v g once new =
    (t, refl, record { table = v; find = λ j. unfold find_chain map_rec or_found in refl })
load_list file_end t (r ∷ rs) rest b s v g once new =
    let self : toc_find t r.key ≡ none =
      new r.key (unfold count_chain in ground (arith, key_eq_refl r.key)) in
    let (u, e, l) = load_one-Loads file_end t r (put_chain rs ++ rest) b s.0 v g self in
    let once' = λ (j : List ℕ). drop_one j r rs (once j) in
    let new' : (j : List ℕ) → 0 < count_chain j rs → toc_find u j ≡ none =
      λ j h. later u j (once j) h (l.find j) (new j) in
    let (w, e', m) = load_list file_end u rs rest b s.1 l.table l.memory once' new' in
    (
      w,
      rw (append_assoc (put_rec r) (put_chain rs) rest, e) e',
      record { table = m.table; find = λ j. m.find j ∙ combine u j (once j) (l.find j) },
    )
  where
    drop_one :
        (j : List ℕ) (r : Rec) (rs : List Rec) → count_chain j (r ∷ rs) ≤ 1 → count_chain j rs ≤ 1
    drop_one j r rs h = unfold count_chain in omega (arith, h)

    later :
        (u : Table) (j : List ℕ)
        → count_chain j (r ∷ rs) ≤ 1
        → 0 < count_chain j rs
        → toc_find u j ≡ bound_to r.key (some (persisted r)) (toc_find t) j
        → (0 < count_chain j (r ∷ rs) → toc_find t j ≡ none)
        → toc_find u j ≡ none
    later u j one h e n = unfold count_chain in ground (arith, one, h, e, n)

    combine :
        (u : Table) (j : List ℕ)
        → count_chain j (r ∷ rs) ≤ 1
        → toc_find u j ≡ bound_to r.key (some (persisted r)) (toc_find t) j
        → or_found (map_rec (find_chain j rs)) (toc_find u j)
          ≡ or_found (map_rec (find_chain j (r ∷ rs))) (toc_find t j)
    combine u j one e = elim (Bool-cases (key_eq r.key j)) [
      | inr other ↦ unfold find_chain in rw (e, other)
      | inl same ↦
          let gone = find-count_zero j rs (unfold count_chain in ground (arith, one, same)) in
          unfold find_chain map_rec or_found in rw (e, same, gone)
    ]

put_chain-append : (a b : List Rec) → put_chain (a ++ b) ≡ put_chain a ++ put_chain b
unfolding put_chain
put_chain-append [] b = refl
put_chain-append (r ∷ a) b = simp (put_chain-append a b, append_assoc)

put_tab-flat : (cs : List (List Rec)) → put_tab cs ≡ put_chain (flat cs)
unfolding put_tab flat
put_tab-flat [] = unfold put_chain in refl
put_tab-flat (c ∷ cs) = rw (put_chain-append c (flat cs), put_tab-flat cs)

get_or-empty : (n i : ℕ) → get_or (replicate {A = List Rec} n []) i [] ≡ []
get_or-empty zero i = refl
get_or-empty (suc n) zero = refl
get_or-empty (suc n) (suc i) = get_or-empty n i

-- The table of a new store is well formed and has no record.
pub new_table-IsTable :
    (grants : List Bool)
    → IsTable (new_table grants) × ((j : List ℕ) → toc_find (new_table grants) j ≡ none)
unfolding new_table toc_find chain_at find_chain
new_table-IsTable grants = (
  record {
    buckets = omega arith;
    homed = λ key i. unfold count_chain in rw (get_or-empty 64 i) (omega arith);
    counted = unfold flat in refl;
  },
  λ j. ap (find_chain j) (get_or-empty 64 (bucket_of 64 j)),
)

-- For a well-formed table whose records can be stored (keys of 1 to 255 bytes without NUL, sizes of
-- 64 bits, at most 256 attribute bytes, fewer than 2 ^ 32 extents, all of them inside the file) and
-- with memory at hand, `toc_serialise` succeeds, `toc_load` of its bytes and record count into a new
-- table succeeds, and the loaded table is well formed and finds under every key what is persistent
-- of the record that stood there (its key, size, attribute and extents, with nothing in memory,
-- mapped or busy), or nothing where nothing stood.
pub toc_load-toc_serialise :
    (file_end : ℕ) (t : Table)
    → file_end < 2 ^ 64
    → IsTable t
    → AllStorable file_end (flat t.tab)
    → t.grants ≡ []
    → (bytes : List ℕ) × (u : Table) × (toc_serialise t ≡ ok bytes)
      × (toc_load file_end (new_table []) bytes t.nrec ≡ ok u)
      × IsTable u
      × ((j : List ℕ) → toc_find u j ≡ map_rec (toc_find t j))
toc_load-toc_serialise file_end t b v s g =
    let (empty, nothing) = new_table-IsTable [] in
    let (u, e, l) =
      load_list file_end (new_table []) (flat t.tab) [] b s empty (unfold new_table in refl)
        (λ j. (find-flat t.tab j v.homed).1) (λ j h. nothing j) in
    (
      put_tab t.tab,
      u,
      unfold toc_serialise in rw g refl,
      rw (put_tab-flat t.tab, v.counted, ← append-nil (put_chain (flat t.tab))) e,
      l.table,
      λ j.
          l.find j
          ∙ rw (nothing j, (find-flat t.tab j v.homed).0)
              (unfold toc_find in or_none (map_rec (find_chain j (chain_at t.tab j)))),
    )
  where
    or_none : (o : Option Rec) → or_found o none ≡ o
    or_none none = unfold or_found in refl
    or_none (some r) = unfold or_found in refl
