-- ===== src/Tests/Options.antt =====
-- Options, a path, a superblock and a new store: src/open.c on concrete data.
use libspill.Base.{ℕ, ◌<◌, ◌^◌, ◌≡◌, ◌≤◌, true, false, none, some, [], ◌∷◌, arith}
use libspill.Codec.{crc32_of, crc_loop, crc_bits, crc_bit}
use libspill.Status.{ok}
use libspill.Options.{
  Opts, pos, negsuc, posix, explicit, per_rank, Layout, IsLayout, ls_opts_init, zero_opts,
}
use libspill.Options.Path.{Env, whole_path, build_path, read_opts}
use libspill.Options.Check.{check_opts}
use libspill.Options.Laws.{
  Checked, check_opts-Checked, as_version, read_opts-as_version, ls_opts_init-keeps,
  build_path-whole_path,
}
use libspill.Pool.{Sized, asked_for, ls_pool_start, ls_pool_start-bounds}
use libspill.Super.{super_bytes, read_super}
use libspill.Super.Laws.{read_super-super_bytes}
use libspill.Open.{blank_store, make_store}
use libspill.Open.Fresh.{Makes, make_store-Makes}
use libspill.Tests.Ram.{Ram, ram, ram-IsPosix}

abbrev layout : Layout
layout = record { exact_name = 64; durable_close = 68; total = 72 }

layout-IsLayout : IsLayout layout
layout-IsLayout = record { first = omega arith; second = omega arith; last = omega arith }

-- a caller of version 1, with what happens to follow its struct
abbrev old_opts : Opts
old_opts = record {
  version = 1;
  kind = posix;
  mode = explicit;
  parallel = per_rank;
  rank = negsuc 0;
  memory_budget = 100;
  dir = some (47 ∷ 116 ∷ []);
  direct_io = false;
  log = false;
  exact_name = true;
  durable_close = true;
}

abbrev env : Env
env = record {
  getenv = λ v. some (55 ∷ []);
  strtol = λ v. pos 7;
  getpid = pos 1000;
  tmpdir = 47 ∷ [];
  printed = λ r. 55 ∷ [];
  path_size = λ p. none;
}

check_opts-Checked_example : Checked old_opts (check_opts old_opts)
check_opts-Checked_example = check_opts-Checked old_opts

read_opts-as_version_example : read_opts layout (some old_opts) ≡ as_version old_opts 1
read_opts-as_version_example = read_opts-as_version layout old_opts layout-IsLayout

ls_opts_init-keeps_example :
    ls_opts_init layout old_opts 1
    ≡ record zero_opts { version = 1; rank = negsuc 0; exact_name = true; durable_close = true }
ls_opts_init-keeps_example =
    ls_opts_init-keeps layout old_opts 1 layout-IsLayout (omega arith) (omega arith)

build_path-whole_path_example :
    build_path env (97 ∷ 98 ∷ []) old_opts [] ≡ some (whole_path env (97 ∷ 98 ∷ []) old_opts)
build_path-whole_path_example = build_path-whole_path env (97 ∷ 98 ∷ []) old_opts [] (omega arith)

crc_word : crc32_of (49 ∷ []) < 2 ^ 32
unfolding crc32_of crc_loop crc_bits crc_bit
crc_word = omega arith

read_super-super_bytes_example :
    read_super 8193 (super_bytes 8192 1 (49 ∷ []))
    ≡ ok (record { toc_off = 8192; toc_n = 1; fend = 8192; crc = crc32_of (49 ∷ []); tlen = 1 })
read_super-super_bytes_example =
    read_super-super_bytes 8193 8192 1 (49 ∷ []) (omega arith) (omega arith) (omega arith) crc_word
      (omega arith) (omega arith)

abbrev empty_file : Ram
empty_file = record { at = λ x. 7; end = 0; interrupts = 1 }

make_store-Makes_example :
    Makes ram ram-IsPosix old_opts empty_file
      (make_store ram (λ es. es) (blank_store ram old_opts empty_file [] [] []))
make_store-Makes_example = make_store-Makes ram ram-IsPosix old_opts empty_file [] [] [] (λ es. es)

ls_pool_start-bounds_example :
    (n : ℕ) × (ls_pool_start env.strtol (some (55 ∷ [])) true [] ≡ ok n)
    × Sized (asked_for env.strtol (some (55 ∷ []))) n
    × (n < 256)
    × ((k : ℕ)
        → ls_pool_start env.strtol (some (55 ∷ [])) true (true ∷ true ∷ false ∷ []) ≡ ok k
        → (0 < k) × (k ≤ n))
ls_pool_start-bounds_example =
    ls_pool_start-bounds env.strtol (some (55 ∷ [])) true (true ∷ true ∷ false ∷ [])
