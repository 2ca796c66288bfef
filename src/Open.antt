-- ===== src/Open.antt =====
-- src/open.c: what `ls_open` makes of the file, buffered and without HDF5. `qsort` is that of the
-- C library and `open_rw` opens a path.
pub mod Fresh
use libspill.Base.{
  ℕ, ◌+◌, ◌-◌, Bool, true, false, Option, none, some, List, [], ◌∷◌, leb, ltb, if◌then◌else◌, ◌==◌,
  length,
}
use libspill.Alloc.{Extent, Alloc, granted, later_grants, super_size}
use libspill.Codec.{crc32_of}
use libspill.Toc.{Table, new_table}
use libspill.TocFile.{toc_load}
use libspill.FreeList.{rebuild_free_list}
use libspill.Status.{Status, done, corrupt, errno, no_memory, Result, ok, fail}
use libspill.Os.{Os, Done, success}
use libspill.Io.{ls_pread_all}
use libspill.Options.{Opts, Layout, is_shared}
use libspill.Options.Path.{Env, build_path}
use libspill.Options.Check.{open_opts}
use libspill.Extents.{settle, Space}
use libspill.Spill.{Tier}
use libspill.Pool.{ls_pool_start}
use libspill.Super.{Super, read_super}
use libspill.Store.{Store}

module _ (os : Os) where
  -- the store before its file is read; no memory was refused
  unfoldable pub blank_store : Opts → os.File → List Bool → List Bool → List Bool → Store os
  blank_store o f tables allocs buffers = record {
    space = record {
      file = f;
      alloc = record {
        fl = [];
        flcap = 0;
        file_end = super_size;
        teardown = false;
        grants = allocs;
        cuts = [];
      };
      retired = [];
      retcap = 0;
      buffers = buffers;
      cut_errors = [];
    };
    table = new_table tables;
    tier = record { resident = 0; lru = [] };
    opts = o;
    reports = [];
  }

  abbrev pub file_now : Store os → os.File → Store os
  file_now s f = record s { space = record s.space { file = f } }

  module _ (qsort : List Extent → List Extent) where
    abbrev pub with_free_list : Store os → Result Alloc → Result (Store os)
    with_free_list s (fail e) = fail e
    with_free_list s (ok a) = ok (record s { space = settle os s.space a })

    abbrev pub with_table : Store os → Result Table → Result (Store os)
    with_table s (fail e) = fail e
    with_table s (ok t) =
        with_free_list (record s { table = t }) (rebuild_free_list qsort s.space.alloc t.tab)

    -- by the bytes of the table of contents
    abbrev pub toc_read :
        Store os
        → Super
        → os.File × Option (Result (List ℕ))
        → Store os × Option (Result (Store os))
    toc_read s sup (f, none) = (file_now s f, none)
    toc_read s sup (f, some (fail e)) = (file_now s f, some (fail e))
    toc_read s sup (f, some (ok tb)) =
        let s' = file_now s f in
        if crc32_of tb == sup.crc
        then (s', some (with_table s' (toc_load s'.space.alloc.file_end s'.table tb sup.toc_n)))
        else (s', some (fail corrupt))

    -- by the superblock; `malloc` for the table of contents is asked first
    abbrev pub super_read : Store os → Result Super → Store os × Option (Result (Store os))
    super_read s (fail e) = (s, some (fail e))
    super_read s (ok sup) =
        let s' = record s {
          space = record s.space { alloc = record s.space.alloc { file_end = sup.fend } };
          table = record s.table { grants = later_grants s.table.grants };
        } in
        if granted s.table.grants
        then toc_read s' sup (ls_pread_all os s'.space.file sup.tlen sup.toc_off)
        else (s', some (fail no_memory))

    abbrev pub block_read :
        Store os → ℕ → os.File × Option (Result (List ℕ)) → Store os × Option (Result (Store os))
    block_read s fsize (f, none) = (file_now s f, none)
    block_read s fsize (f, some (fail e)) = (file_now s f, some (fail e))
    block_read s fsize (f, some (ok sb)) = super_read (file_now s f) (read_super fsize sb)

    -- an existing store
    unfoldable pub load_store : Store os → ℕ → Store os × Option (Result (Store os))
    unfolding read_super toc_load rebuild_free_list
    load_store s fsize = block_read s fsize (ls_pread_all os s.space.file super_size 0)

    abbrev pub truncated : Store os → os.File × Done → Store os × Option (Result (Store os))
    truncated s (f, success) = (file_now s f, some (ok (file_now s f)))
    truncated s (f, Done.failed e) = (file_now s f, some (fail (errno e)))

    -- an empty file: a new store, unless it is to be shared
    unfoldable pub make_store : Store os → Store os × Option (Result (Store os))
    make_store s =
        if is_shared s.opts.parallel
        then (s, some (fail (errno 2)))
        else truncated s (os.ftruncate s.space.file super_size)

    -- by the size of the file
    abbrev pub sized : Store os → os.File × Done → Store os × Option (Result (Store os))
    sized s (f, Done.failed e) = (file_now s f, some (fail (errno e)))
    sized s (f, success) =
        let s' = file_now s f in
        let n = os.size f in
        if leb super_size n
        then load_store s' n
        else (if ltb 0 n then (s', some (fail corrupt)) else make_store s')

    unfoldable pub read_store : Store os → Store os × Option (Result (Store os))
    unfolding load_store make_store
    read_store s = sized s (os.fstat s.space.file)

  module _ (qsort : List Extent → List Extent) (open_rw : List ℕ → Bool → Result os.File)
      (pool : Result ℕ) where
    abbrev pub pooled : Store os → Result ℕ → Option (Result (Store os))
    pooled s (ok nthr) = some (ok s)
    pooled s (fail e) = some (fail e)

    abbrev pub and_pool : Option (Result (Store os)) → Option (Result (Store os))
    and_pool none = none
    and_pool (some (fail e)) = some (fail e)
    and_pool (some (ok s)) = pooled s pool

    -- the answers to the coming requests for memory of the three parts
    abbrev pub opened :
        Opts → List Bool → List Bool → List Bool → Result os.File → Option (Result (Store os))
    opened o tables allocs buffers (fail e) = some (fail e)
    opened o tables allocs buffers (ok f) =
        and_pool ((read_store qsort (blank_store o f tables allocs buffers)).1)

    -- the two requests, for the buckets and the path, are made before either is tested
    abbrev pub at_path :
        Opts
        → List Bool
        → List Bool
        → List Bool
        → Bool
        → Option (List ℕ)
        → Option (Result (Store os))
    at_path o tables allocs buffers true (some path) =
        opened o tables allocs buffers (open_rw path o.direct_io)
    at_path o tables allocs buffers false (some path) = some (fail no_memory)
    at_path o tables allocs buffers given none = some (fail no_memory)

    abbrev pub with_opts :
        Env
        → List ℕ
        → List Bool
        → List Bool
        → List Bool
        → List Bool
        → Result Opts
        → Option (Result (Store os))
    with_opts env name grants tables allocs buffers (fail e) = some (fail e)
    with_opts env name grants tables allocs buffers (ok o) =
        let later = later_grants grants in
        if granted grants
        then at_path o tables allocs buffers (granted later)
            (build_path env name o (later_grants later))
        else some (fail no_memory)

  abbrev pub name_bytes : Option (List ℕ) → List ℕ
  name_bytes none = []
  name_bytes (some name) = name

  -- `var` is LIBSPILL_IO_THREADS and `created` what creating the threads answers
  unfoldable pub ls_open :
      (List Extent → List Extent)
      → (List ℕ → Bool → Result os.File)
      → Layout
      → Env
      → Option (List ℕ)
      → List Bool
      → Option (List ℕ)
      → Option Opts
      → List Bool
      → List Bool
      → List Bool
      → List Bool
      → Bool
      → Option (Result (Store os))
  unfolding read_store open_opts build_path ls_pool_start
  ls_open qsort open_rw l env var created name opts grants tables allocs buffers mem =
      with_opts qsort open_rw (ls_pool_start env.strtol var mem created) env (name_bytes name)
        grants tables allocs buffers (open_opts l name opts)
