-- ===== src/Options/Check.antt =====
-- src/open.c: the combinations of options that `ls_open` refuses, in a build with mmap and without
-- HDF5.
use libspill.Base.{ℕ, ◌&&◌, ◌||◌, Option, none, some, List, [], ◌∷◌, ltb, if◌then◌else◌}
use libspill.Status.{inval, backend, Result, ok, fail}
use libspill.Options.{Opts, Layout, is_mapped, is_hdf5, is_shared, is_per_rank}
use libspill.Options.Path.{read_opts}

unfoldable pub check_opts : Opts → Result Opts
check_opts o =
    if is_mapped o.mode && (is_hdf5 o.kind || (ltb 0 o.memory_budget || o.direct_io))
    then fail inval
    else if is_shared o.parallel && ltb 0 o.memory_budget
    then fail inval
    else if is_hdf5 o.kind
    then fail backend
    else if o.exact_name && is_per_rank o.parallel
    then fail inval
    else ok o

abbrev pub and_check : Result Opts → Result Opts
and_check (fail e) = fail e
and_check (ok o) = check_opts o

-- the start of `ls_open`: the name, the options that the caller gave, and the checks
unfoldable pub open_opts : Layout → Option (List ℕ) → Option Opts → Result Opts
unfolding check_opts read_opts
open_opts l none opts = fail inval
open_opts l (some []) opts = fail inval
open_opts l (some (c ∷ name)) opts = and_check (read_opts l opts)
