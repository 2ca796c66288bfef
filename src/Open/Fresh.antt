-- ===== src/Open/Fresh.antt =====
-- src/open.c: a new store.
use libspill.Base.{
  ℕ, ◌^◌, ◌≤◌, ◌≡◌, refl, inl, inr, Bool-cases, Bool, true, false, Option, none, some, List, arith,
  ap, sym, ◌∙◌,
}
use libspill.Alloc.{Extent}
use libspill.Toc.{toc_find}
use libspill.TocFile.RoundTrip.{new_table-IsTable}
use libspill.Status.{errno, Result, ok, fail}
use libspill.Os.{Os, IsPosix, Done, success}
use libspill.Options.{Opts, is_shared}
use libspill.Spill.Lru.{has_key, are_distinct}
use libspill.Open.{blank_store, file_now, truncated, make_store}
use libspill.Store.{Store}
use libspill.Store.Invariant.{rec_size}
use libspill.Store.Begin.{CanWrite}

module _ (os : Os) (posix : IsPosix os) where
  -- A store without records, in which any write may start that ends at `hi` or before.
  pub record IsFresh (o : Opts) (s : Store os) : Type 0 where
    pub opts : s.opts ≡ o
    pub empty : (key : List ℕ) → toc_find s.table key ≡ none
    pub ready : (limit hi : ℕ) → limit ≤ 2 ^ 61 → hi ≤ 2 ^ 62 → CanWrite os posix limit hi s

  module _ (o : Opts) (f g : os.File) (tables allocs buffers : List Bool) where
    blank_store-IsFresh : IsFresh o (file_now os (blank_store os o f tables allocs buffers) g)
    unfolding blank_store rec_size are_distinct has_key
    blank_store-IsFresh =
        let nothing = (new_table-IsTable tables).1 in
        record {
          opts = refl;
          empty = nothing;
          ready = λ limit hi l h. record {
            store = record {
              table = (new_table-IsTable tables).0;
              sound = record { sorted = omega arith; word = omega arith };
              live = refl;
              holding = λ key r e. absurd (let z : none ≡ some r = sym (nothing key) ∙ e in cc);
              disjoint =
                  λ k j r q e d ne x i. absurd (let z : none ≡ some r = sym (nothing k) ∙ e in cc);
            };
            tier = record { apart = refl; resident = λ k e. absurd cc };
            bounded =
                λ j n e. absurd (let z : none ≡ some n = sym (ap rec_size (nothing j)) ∙ e in cc);
            small = omega (arith, l);
            reach = h;
            end = omega (arith, l);
          };
        }

  -- How making a store in an empty file ends.
  pub data Makes (o : Opts) (f : os.File) (res : Store os × Option (Result (Store os)))
      : Type 0 where
    made :
        (s : Store os)
        → (os.ftruncate f 4096).1 ≡ success
        → is_shared o.parallel ≡ false
        → res.1 ≡ some (ok s)
        → IsFresh o s
        → Makes o f res
    not_truncated :
        (e : ℕ)
        → (os.ftruncate f 4096).1 ≡ Done.failed e
        → res.1 ≡ some (fail (errno e))
        → Makes o f res
    not_shared : is_shared o.parallel ≡ true → res.1 ≡ some (fail (errno 2)) → Makes o f res

  truncated-Makes :
      (o : Opts) (f : os.File) (tables allocs buffers : List Bool)
      (qsort : List Extent → List Extent) (res : os.File × Done)
      → is_shared o.parallel ≡ false
      → (os.ftruncate f 4096).1 ≡ res.1
      → Makes o f (truncated os qsort (blank_store os o f tables allocs buffers) res)
  truncated-Makes o f tables allocs buffers qsort (g, success) p e =
      made (file_now os (blank_store os o f tables allocs buffers) g) e p refl
        (blank_store-IsFresh o f g tables allocs buffers)
  truncated-Makes o f tables allocs buffers qsort (g, Done.failed c) p e = not_truncated c e refl

  -- Making a store in an empty file ends in one of three ways: with -ENOENT where the store is to be
  -- shared; with the errno of `ftruncate` where that fails; or else with a store that has the options
  -- it was opened with and no record, and in which any write may start that ends at 2 ^ 62 or before.
  pub make_store-Makes :
      (o : Opts) (f : os.File) (tables allocs buffers : List Bool)
      (qsort : List Extent → List Extent)
      → Makes o f (make_store os qsort (blank_store os o f tables allocs buffers))
  unfolding make_store blank_store
  make_store-Makes o f tables allocs buffers qsort = elim (Bool-cases (is_shared o.parallel)) [
    | inl shared ↦ rw shared (not_shared shared refl)
    | inr own ↦
        rw own (truncated-Makes o f tables allocs buffers qsort (os.ftruncate f 4096) own refl)
  ]
