-- ===== src/Lib.antt =====
-- libspill: a scratch store that keeps keyed records of bytes in one file.
--
-- The program. A store (`struct ls_store`, src/internal.h) has a table of contents from keys to
-- records (src/toc.c), an extent allocator for the file (src/alloc.c), a file format and the opening
-- and closing of it (src/open.c), and the data path over extents (src/store.c). A record's bytes are
-- either in memory or in a list of extents of the file. When a store is reopened, the table is read
-- from the file and the free list is rebuilt from the gaps between the extents of its records.
--
-- Which file models which part:
--   Base, Base/*    the numbers, tests and list functions that all parts share; 64-bit sums
--                   and differences wrap around (`◌+₆₄◌`, `◌-₆₄◌`)
--   Status          the status codes of include/libspill.h and results of fallible functions
--   Alloc, Alloc/*  src/alloc.c: `ls_alloc_best` is `alloc_best`, `ls_alloc_largest` is
--                   `alloc_largest`, `ls_alloc_tail` is `alloc_tail`, `ls_free_extents` is
--                   `free_extents`, `ls_alloc_live` is `alloc_live`; statics keep their names. The
--                   free list is a list of holes; the array index of a search is a `Cursor`
--   Codec           src/open.c: `put32`, `put64`, `get32`, `get64`, `crc32_of`, on lists of bytes
--   Toc, Toc/*      src/toc.c: the hash table, a list of chains. A record pointer is the record's
--                   key: `toc_write` puts the record with its new fields in the place of the old one
--   TocFile         src/open.c: `toc_serialise`, `toc_load`; a cursor is the bytes from it on
--   FreeList        src/open.c: `cmp_ext`, `rebuild_free_list`; `qsort` is a parameter
--   Os              src/os.h, src/os_posix.c: the system calls, an interface with laws
--   Io, Io/*        src/store.c: `ls_pread_all`, `ls_pwrite_all`, the loops of `rw_all`
--   Scatter         src/store.c: `ls_scatter`, by direction `scatter_read` and `scatter_write`
--   Zero            src/store.c: `zero_range`
--   Extents         src/store.c: `ext_retire`, `ext_push`, `ensure_extents`. `settle` applies the
--                   truncations that the allocator asked for (`cuts`) to the file, with their failures
--   Spill, Spill/*  src/store.c: `spill`; the doubly linked LRU list is the list of its keys
--   Options, Options/*  include/libspill.h and src/open.c: the options of a store, `ls_opts_init`,
--                   `resolve_rank`, `build_path`, `ls_store_exists`, the checks of `ls_open`
--   Super           src/open.c: the superblock, as it is written and read
--   Open, Open/*    src/open.c: `ls_open`
--   Close           src/open.c: `ls_close` after the pool was stopped, `ls_unlink_now`
--   Pool            src/async.c: `ls_pool_start`
--   Store           src/internal.h: `struct ls_store` as the data path sees it, pinning and unpinning;
--                   src/error.c: `ls_report`, which records the calls of the log callback
--   Store/Capacity  src/store.c: `ls_evict_to` is `evict_to`, `ls_spill_all` is `spill_all`,
--                   `ensure_cap`
--   Store/Transfer  src/store.c: `ls_rw`, by direction `rw_write` and `rw_read` (`rw_write_bytes` and
--                   `rw_read_bytes` are what follows its check of the arguments); `ls_write`, `ls_read`
--   Store/Append    src/store.c: `ls_append`; `segv`, by direction `ls_writev` and `ls_readv`
--   Store/Keys      src/store.c: `ls_exists`, `ls_size`, `ls_erase`, `ls_reserve`, `ls_keys`, the
--                   attributes; src/toc.c: `ls_rec_free`
--   Store/Accumulate  src/store.c: `ls_accumulate`, for any reduction
--   Store/*         the rest is proofs: `Invariant` and `Listed` say when a store is well formed and
--                   what a caller sees of it, `Replace` and `Insert` change one record, `Evict` and
--                   `Ensure` are about Store/Capacity, `Counted` about its counter, `Begin`, `Land`,
--                   `Write`, `Fetch`, `Read`, `RoundTrip` and `Appended` about the transfers,
--                   `Reserved` about `ls_reserve`
--   Tests/*         runs on concrete data, with a file in memory for the kernel
--
-- The environment. Whether a coming malloc, calloc or realloc succeeds is a list of Booleans in the
-- state that asks (`grants`; past its end all succeed). The kernel is the record `Os`, and `IsPosix`
-- is what the code relies on of it: transfers move a prefix of what was asked for, an interrupted
-- call moves nothing, a call is not interrupted for ever (`patience`), bytes past the end of a file
-- read as zero once it is extended, a truncation keeps what lies before the new end. Functions that
-- hold a lock for their whole body are one step. A transfer has three steps, the part under the
-- lock, the transfer at the snapshot that it took, and the unpinning; an operation is modelled as
-- these steps in a row. The snapshot of a resident record is its buffer, so what the transfer leaves
-- in the snapshot is what the unpinned record has. HDF5 is compiled out, and the store pointer is
-- not null; a caller's null key or buffer is `none`.
--
-- Fuel. `pwrite_all` and `pread_all` run on the number of bytes plus the interrupts to come; each
-- call moves a byte or uses an interrupt up, so they always end (`Io.Retry`, `Io.ReadLoop`).
-- `zero_chunks` runs on the number of bytes, of which each round writes one or more (`Zero.Ends`).
-- `ensure_loop` runs on eight rounds: a round that does not cover the request adds one extent, and past
-- seven of them a round covers it (`Extents.Grows`). `evict_loop` runs on one round more than the LRU
-- list is long, since a round that goes on takes a record off it (`Store.Evict.Loop`).
-- `accumulate_loop` runs on the number of bytes. `double_cap` runs on 64, the doublings that a 64-bit
-- capacity can take.
--
-- Not modelled: the pointers of the LRU list, so that `ls_lru_drop` and `ls_lru_touch` are taken for
-- the removal of a key from a list (`lru_drop`) and its moving to the front (`lru_touch`); the
-- O_DIRECT paths of src/store.c, which go through a bounce buffer; `ls_map` and `ls_unmap`, which
-- are the kernel's work; `ls_add_f64` and `ls_add_f32`, which add floating-point numbers;
-- `ls_keys_free`, which frees; the interleaving of operations from several threads; the requests and
-- workers of src/async.c; src/hdf5.c, which calls the HDF5 library; `ls_strerror` of src/error.c;
-- the bindings and compat/.
-- In `Io` and `Scatter` offsets in a file are natural numbers: an extent lies inside the file, whose
-- end is a 64-bit offset.
pub mod Base
pub mod Alloc
pub mod Codec
pub mod Toc
pub mod Status
pub mod TocFile
pub mod FreeList
pub mod Os
pub mod Io
pub mod Scatter
pub mod Zero
pub mod Extents
pub mod Spill
pub mod Options
pub mod Store
pub mod Open
pub mod Close
pub mod Super
pub mod Pool
pub mod Tests
