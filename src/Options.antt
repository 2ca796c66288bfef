-- ===== src/Options.antt =====
-- include/libspill.h and src/open.c: the options of a store. Whether a log callback is set is a
-- Boolean, and its context is opaque. Where a version of the struct ends in memory is a `Layout`.
pub mod Path
pub mod Check
pub mod Laws
use libspill.Base.{
  ℕ, zero, suc, ◌<◌, ◌-◌, ◌%◌, ◌^◌, Bool, true, false, ◌||◌, Option, none, some, List, ltb, ◌==◌,
  if◌then◌else◌,
}

pub data ℤ : Type 0 where
  pos : ℕ → ℤ
  negsuc : ℕ → ℤ

pub data Backend : Type 0 where
  posix hdf5 : Backend

pub data Mode : Type 0 where
  explicit mapped : Mode

pub data Parallel : Type 0 where
  only_local per_rank shared : Parallel

pub record Opts : Type 0 where
  pub version : ℕ
  pub kind : Backend
  pub mode : Mode
  pub parallel : Parallel
  pub rank : ℤ
  pub memory_budget : ℕ
  pub dir : Option (List ℕ)
  pub direct_io : Bool
  pub log : Bool
  pub exact_name : Bool
  pub durable_close : Bool

abbrev pub is_mapped : Mode → Bool
is_mapped explicit = false
is_mapped mapped = true

abbrev pub is_hdf5 : Backend → Bool
is_hdf5 posix = false
is_hdf5 hdf5 = true

abbrev pub is_shared : Parallel → Bool
is_shared shared = true
is_shared only_local = false
is_shared per_rank = false

abbrev pub is_per_rank : Parallel → Bool
is_per_rank per_rank = true
is_per_rank only_local = false
is_per_rank shared = false

-- `offsetof(ls_opts, exact_name)`, `offsetof(ls_opts, durable_close)` and `sizeof(ls_opts)`, which the
-- compiler chooses
pub record Layout : Type 0 where
  pub exact_name : ℕ
  pub durable_close : ℕ
  pub total : ℕ

-- The members stand in the order of the declaration.
pub record IsLayout (l : Layout) : Type 0 where
  pub first : 0 < l.exact_name
  pub second : l.exact_name < l.durable_close
  pub last : l.durable_close < l.total

unfoldable pub opts_size : Layout → ℕ → ℕ
opts_size l version =
    if version == 1
    then l.exact_name
    else if version == 2
    then l.durable_close
    else if version == 3
    then l.total
    else 0

abbrev pub opts_version : ℕ
opts_version = 3

-- `memcpy(o, src, n)`, where `n` is the size of a version
unfoldable pub copy_opts : Layout → ℕ → Opts → Opts → Opts
copy_opts l n src o =
    let base =
      if ltb 0 n
      then record src { exact_name = o.exact_name; durable_close = o.durable_close }
      else o in
    record base {
      exact_name = if ltb l.exact_name n then src.exact_name else o.exact_name;
      durable_close = if ltb l.durable_close n then src.durable_close else o.durable_close;
    }

-- all bytes zero: the first enumerators, null pointers
abbrev pub zero_opts : Opts
zero_opts = record {
  version = 0;
  kind = posix;
  mode = explicit;
  parallel = only_local;
  rank = pos 0;
  memory_budget = 0;
  dir = none;
  direct_io = false;
  log = false;
  exact_name = false;
  durable_close = false;
}

-- the struct that `o` points to, before and after
unfoldable pub ls_opts_init : Layout → Opts → ℕ → Opts
unfolding copy_opts opts_size
ls_opts_init l o version =
    let v = if version == 0 || ltb opts_version version then opts_version else version in
    record (copy_opts l (opts_size l v) zero_opts o) {
      version = v;
      kind = posix;
      mode = explicit;
      parallel = only_local;
      rank = negsuc 0;
    }

abbrev pub ls_opts_default : Layout → Opts → Opts
ls_opts_default l o = ls_opts_init l o opts_version
