-- ===== src/Options/Path.antt =====
-- src/open.c: `resolve_rank`, `build_path`, `ls_store_exists`. The environment of the process and what
-- the C library prints are parameters: `getenv` of the four variables, `strtol` in base 10, the
-- process number, the directory that `ls_os_tmpdir` leaves, `%d`, and the size of a file by its path.
use libspill.Base.{
  ℕ, ◌+◌, ◌-◌, ◌%◌, ◌^◌, Bool, false, Option, none, some, List, [], ◌∷◌, ◌++◌, ltb, if◌then◌else◌,
  length, take, ◌==◌,
}
use libspill.Alloc.{granted}
use libspill.Status.{inval, no_memory, Result, ok, fail}
use libspill.Options.{
  ℤ, pos, negsuc, Opts, Layout, opts_size, opts_version, copy_opts, ls_opts_init, zero_opts,
  is_per_rank,
}

-- `(int)r` for a number that is not negative
abbrev pub to_int : ℕ → ℤ
to_int r = let m = r % 2 ^ 32 in if ltb m (2 ^ 31) then pos m else negsuc (2 ^ 32 - 1 - m)

pub data Var : Type 0 where
  ompi_comm_world_rank pmi_rank pmix_rank slurm_procid : Var

pub record Env : Type 0 where
  pub getenv : Var → Option (List ℕ)
  pub strtol : List ℕ → ℤ
  pub getpid : ℤ
  pub tmpdir : List ℕ
  pub printed : ℤ → List ℕ
  pub path_size : List ℕ → Option ℕ

abbrev pub vars : List Var
vars = ompi_comm_world_rank ∷ pmi_rank ∷ pmix_rank ∷ slurm_procid ∷ []

abbrev pub or_next : ℤ → ℤ → ℤ
or_next rest (pos r) = to_int r
or_next rest (negsuc r) = rest

-- by the value of the variable
abbrev pub rank_of : Env → ℤ → Option (List ℕ) → ℤ
rank_of env rest none = rest
rank_of env rest (some []) = rest
rank_of env rest (some (c ∷ v)) = or_next rest (env.strtol (c ∷ v))

unfoldable pub env_rank : Env → List Var → ℤ
env_rank env [] = env.getpid
env_rank env (x ∷ xs) = rank_of env (env_rank env xs) (env.getenv x)

unfoldable pub resolve_rank : Env → ℤ → ℤ
unfolding env_rank
resolve_rank env (pos r) = pos r
resolve_rank env (negsuc r) = env_rank env vars

-- `LS_PATH_SEP`, ".r" and ".libspill"
abbrev pub path_sep : List ℕ
path_sep = 47 ∷ []

abbrev pub dot_r : List ℕ
dot_r = 46 ∷ 114 ∷ []

abbrev pub dot_libspill : List ℕ
dot_libspill = 46 ∷ 108 ∷ 105 ∷ 98 ∷ 115 ∷ 112 ∷ 105 ∷ 108 ∷ 108 ∷ []

abbrev pub dir_or : Env → Option (List ℕ) → List ℕ
dir_or env none = env.tmpdir
dir_or env (some []) = env.tmpdir
dir_or env (some (c ∷ d)) = c ∷ d

-- what follows the name
abbrev pub path_end : Env → Opts → List ℕ
path_end env o =
    if o.exact_name
    then []
    else if is_per_rank o.parallel
    then dot_r ++ (env.printed (resolve_rank env o.rank) ++ dot_libspill)
    else dot_libspill

-- what is printed, before `snprintf` cuts it
unfoldable pub whole_path : Env → List ℕ → Opts → List ℕ
whole_path env name o = dir_or env o.dir ++ (path_sep ++ (name ++ path_end env o))

-- `snprintf` into a buffer of `n` bytes leaves `n - 1` at most before the NUL
unfoldable pub build_path : Env → List ℕ → Opts → List Bool → Option (List ℕ)
unfolding whole_path
build_path env name o grants =
    let n = length (dir_or env o.dir) + length name + 64 in
    if granted grants then some (take (n - 1) (whole_path env name o)) else none

abbrev pub exists_at : Env → Option (List ℕ) → Result Bool
exists_at env none = fail no_memory
exists_at env (some path) = ok (elim (env.path_size path) [ none ↦ false | some size ↦ ltb 0 size ])

-- the options that a caller gave, if any, up to the version of the struct
unfoldable pub read_opts : Layout → Option Opts → Result Opts
unfolding copy_opts opts_size ls_opts_init
read_opts l none = ok (ls_opts_init l zero_opts opts_version)
read_opts l (some opts) =
    let n = opts_size l opts.version in
    if n == 0
    then fail inval
    else ok (record (copy_opts l n opts (ls_opts_init l zero_opts opts_version)) {
      version = opts_version;
    })

abbrev pub exists_with : Env → List ℕ → List Bool → Result Opts → Result Bool
exists_with env name grants (fail e) = fail e
exists_with env name grants (ok o) = exists_at env (build_path env name o grants)

-- `name == NULL` is `none`
unfoldable pub ls_store_exists :
    Env → Layout → Option (List ℕ) → Option Opts → List Bool → Result Bool
unfolding build_path read_opts
ls_store_exists env l none opts grants = fail inval
ls_store_exists env l (some []) opts grants = fail inval
ls_store_exists env l (some (c ∷ name)) opts grants =
    exists_with env (c ∷ name) grants (read_opts l opts)
