-- ===== src/Tests/Toc.antt =====
-- A table of two records: src/toc.c, the file format and the rebuild of src/open.c on concrete data.
use libspill.Base.{
  ℕ, ◌≡◌, refl, true, none, some, List, [], ◌∷◌, ◌++◌, ◌*◌, ◌^◌, drop, length, arith, sym, ◌∙◌,
}
use libspill.Codec.{put32, put64, get32, get64}
use libspill.Codec.Laws.{get32-put32, get64-put64}
use libspill.Toc.{
  Rec, Table, insert_fresh, is_full, key_eq, bucket_of, hash_of, write_chain, push, chain_at,
  toc_find, toc_grow, toc_insert, toc_unlink, toc_write, new_table, fresh_rec,
}
use libspill.Toc.Grow.{flat}
use libspill.Toc.Laws.{
  IsTable, Inserted, fresh, refused, bound_to, toc_grow-keeps, toc_insert-Inserted, toc_unlink-find,
  toc_write-find,
}
use libspill.TocFile.{toc_serialise, toc_load}
use libspill.TocFile.Fields.{Storable}
use libspill.TocFile.RoundTrip.{new_table-IsTable, AllStorable, map_rec, toc_load-toc_serialise}
use libspill.Status.{ok}

get32-put32_example :
    (get32 (put32 70000 ++ (9 ∷ [])) ≡ 70000) × (drop 4 (put32 70000 ++ (9 ∷ [])) ≡ 9 ∷ [])
get32-put32_example = get32-put32 70000 (9 ∷ []) (omega arith)

get64-put64_example : (get64 (put64 (2 ^ 40) ++ []) ≡ 2 ^ 40) × (drop 8 (put64 (2 ^ 40) ++ []) ≡ [])
get64-put64_example = get64-put64 (2 ^ 40) [] (omega arith)

abbrev key_a : List ℕ
key_a = 97 ∷ []

abbrev key_b : List ℕ
key_b = 98 ∷ 99 ∷ []

abbrev empty : Table
empty = new_table []

abbrev one_rec : Table
one_rec = (toc_insert empty key_a).0

empty-IsTable : IsTable empty
empty-IsTable = (new_table-IsTable []).0

toc_insert-Inserted_example : Inserted empty key_a (toc_insert empty key_a)
toc_insert-Inserted_example =
    toc_insert-Inserted empty key_a empty-IsTable ((new_table-IsTable []).1 key_a)

-- the record of `key_a`, written through its pointer
abbrev written_a : Rec
written_a = record (fresh_rec key_a) {
  size = 100;
  ext = record { foff = 4096; len = 4096 } ∷ [];
  ncap = 4;
  ext_total = 4096;
}

abbrev stored : Table
stored = toc_write one_rec written_a

Inserted-key_a : Inserted empty key_a (toc_insert empty key_a)
Inserted-key_a = toc_insert-Inserted empty key_a empty-IsTable ((new_table-IsTable []).1 key_a)

some_rec_a : (toc_insert empty key_a).1 ≡ some (fresh_rec key_a)
unfolding toc_insert insert_fresh is_full new_table
some_rec_a = refl

no_grants : one_rec.grants ≡ []
unfolding toc_insert insert_fresh is_full new_table
no_grants = refl

one_rec-IsTable :
    IsTable one_rec
    × ((j : List ℕ)
        → toc_find one_rec j ≡ bound_to key_a (some (fresh_rec key_a)) (toc_find empty) j)
one_rec-IsTable = elim Inserted-key_a [
  | fresh s v m f ↦ (v, f)
  | refused n v m f ↦ let clash : none ≡ some (fresh_rec key_a) = sym n ∙ some_rec_a in absurd cc
]

find_a : toc_find one_rec key_a ≡ some (fresh_rec key_a)
unfolding key_eq
find_a = one_rec-IsTable.1 key_a

toc_grow-keeps_example :
    IsTable (toc_grow one_rec).0
    × ((key : List ℕ) → toc_find (toc_grow one_rec).0 key ≡ toc_find one_rec key)
    × ((toc_grow one_rec).0.nrec ≡ one_rec.nrec)
    × ((toc_grow one_rec).1 ≡ true → length (toc_grow one_rec).0.tab ≡ length one_rec.tab * 2)
toc_grow-keeps_example = toc_grow-keeps one_rec one_rec-IsTable.0

toc_unlink-find_example :
    IsTable (toc_unlink one_rec key_a)
    × ((j : List ℕ)
        → toc_find (toc_unlink one_rec key_a) j ≡ bound_to key_a none (toc_find one_rec) j)
toc_unlink-find_example = toc_unlink-find one_rec key_a one_rec-IsTable.0

written_a-Storable : Storable 8192 written_a
written_a-Storable = record {
  key_some = omega arith;
  key_short = omega arith;
  key_text = (omega arith, tt);
  size_word = omega arith;
  attr_short = omega arith;
  few = omega arith;
  in_file = (omega arith, omega arith, tt);
}

stored-no_grants : stored.grants ≡ []
unfolding toc_write
stored-no_grants = no_grants

stored-flat : flat stored.tab ≡ written_a ∷ []
unfolding flat toc_write write_chain toc_insert insert_fresh is_full new_table push chain_at key_eq
    bucket_of hash_of
stored-flat = refl

stored-AllStorable : AllStorable 8192 (flat stored.tab)
stored-AllStorable = rw stored-flat (written_a-Storable, tt)

toc_load-toc_serialise_example :
    (bytes : List ℕ) × (u : Table) × (toc_serialise stored ≡ ok bytes)
    × (toc_load 8192 (new_table []) bytes stored.nrec ≡ ok u)
    × IsTable u
    × ((j : List ℕ) → toc_find u j ≡ map_rec (toc_find stored j))
toc_load-toc_serialise_example =
    toc_load-toc_serialise 8192 stored (omega arith)
      (toc_write-find one_rec written_a (fresh_rec key_a) one_rec-IsTable.0 find_a).0
      stored-AllStorable stored-no_grants
