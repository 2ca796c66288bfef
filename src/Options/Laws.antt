-- ===== src/Options/Laws.antt =====
-- src/open.c: what a caller of an older version gets, which options a store may have, and paths that
-- fit their buffer.
use libspill.Base.{
  ℕ, zero, suc, ◌+◌, ◌-◌, ◌≤◌, ◌<◌, ◌≡◌, refl, ◌⊎◌, inl, inr, Bool, true, false, ◌&&◌, ◌||◌, none,
  some, List, [], ◌∷◌, ◌++◌, arith, ltb, ◌==◌, if◌then◌else◌, Bool-cases, length, length-append,
  take, ap,
}
use libspill.Alloc.{granted}
use libspill.Status.{Status, inval, backend, Result, ok, fail}
use libspill.Options.{
  negsuc, Opts, Layout, IsLayout, opts_size, opts_version, copy_opts, ls_opts_init, zero_opts,
  is_mapped, is_hdf5, is_shared, is_per_rank,
}
use libspill.Options.Path.{
  Env, whole_path, build_path, read_opts, dir_or, path_sep, path_end, resolve_rank, dot_r,
  dot_libspill,
}
use libspill.Options.Check.{check_opts}

-- A combination of options that `ls_open` takes.
pub record IsAllowed (o : Opts) : Type 0 where
  pub kind : is_hdf5 o.kind ≡ false
  pub mapped_budget : is_mapped o.mode ≡ true → o.memory_budget ≡ 0
  pub mapped_direct : is_mapped o.mode ≡ true → o.direct_io ≡ false
  pub shared_budget : is_shared o.parallel ≡ true → o.memory_budget ≡ 0
  pub one_name : o.exact_name ≡ true → is_per_rank o.parallel ≡ false

pub data Checked (o : Opts) (r : Result Opts) : Type 0 where
  allowed : r ≡ ok o → IsAllowed o → Checked o r
  refused :
      (e : Status)
      → r ≡ fail e
      → ¬ IsAllowed o
      → ((e ≡ inval) ⊎ (e ≡ backend) × (is_hdf5 o.kind ≡ true))
      → Checked o r

-- The checks of `ls_open` take the options exactly if the backend is not HDF5, a mapped store has no
-- memory budget and no direct I/O, a shared store has no memory budget, and an exact name is not
-- asked for together with a name per rank. Otherwise the error is LS_ERR_INVAL, or LS_ERR_BACKEND
-- for HDF5.
pub check_opts-Checked : (o : Opts) → Checked o (check_opts o)
unfolding check_opts
check_opts-Checked o =
    elim (Bool-cases
      (is_mapped o.mode && (is_hdf5 o.kind || (ltb 0 o.memory_budget || o.direct_io)))) [
        | inl c ↦ rw c (
            refused inval refl (λ a. ground (arith, c, a.kind, a.mapped_budget, a.mapped_direct))
              (inl refl))
        | inr c ↦ elim (Bool-cases (is_shared o.parallel && ltb 0 o.memory_budget)) [
          | inl d ↦
              rw (c, d) (refused inval refl (λ a. ground (arith, d, a.shared_budget)) (inl refl))
          | inr d ↦ elim (Bool-cases (is_hdf5 o.kind)) [
            | inl k ↦
                rw (c, d, k) (refused backend refl (λ a. ground (arith, k, a.kind)) (inr (refl, k)))
            | inr k ↦ elim (Bool-cases (o.exact_name && is_per_rank o.parallel)) [
              | inl n ↦
                  rw (c, d, k, n)
                    (refused inval refl (λ a. ground (arith, n, a.one_name)) (inl refl))
              | inr n ↦
                  rw (c, d, k, n)
                    (allowed refl (record {
                      kind = k;
                      mapped_budget = λ m. ground (arith, c, m);
                      mapped_direct = λ m. ground (arith, c, m);
                      shared_budget = λ m. ground (arith, d, m);
                      one_name = λ m. ground (arith, n, m);
                    }))
            ]
          ]
        ]
      ]

-- the options of a caller, as a version of the struct has them
abbrev pub as_version : Opts → ℕ → Result Opts
as_version opts version =
    if version == 1
    then ok (record opts { version = opts_version; exact_name = false; durable_close = false })
    else if version == 2
    then ok (record opts { version = opts_version; durable_close = false })
    else if version == 3
    then ok (record opts { version = opts_version })
    else fail inval

-- Where the members of the struct stand in the order of their declaration, `ls_open` takes of a
-- caller's options exactly the members that the caller's version has; those that were added later
-- are off, whatever follows the caller's struct in memory. An unknown version is LS_ERR_INVAL.
pub read_opts-as_version :
    (l : Layout) (opts : Opts) → IsLayout l → read_opts l (some opts) ≡ as_version opts opts.version
unfolding read_opts copy_opts opts_size ls_opts_init
read_opts-as_version l opts w =
    let t : ltb 0 l.total ≡ true = ground (arith, w.first, w.second, w.last) in
    let x3 : ltb l.exact_name l.total ≡ true = ground (arith, w.second, w.last) in
    let y3 : ltb l.durable_close l.total ≡ true = ground (arith, w.last) in
    elim (Bool-cases (opts.version == 1)) [
      | inl v ↦
          let n : (l.exact_name == 0) ≡ false = ground (arith, w.first) in
          let a : ltb 0 l.exact_name ≡ true = ground (arith, w.first) in
          let b : ltb l.exact_name l.exact_name ≡ false = ground arith in
          let c : ltb l.durable_close l.exact_name ≡ false = ground (arith, w.second) in
          rw (v, n, a, b, c, x3, y3) refl
      | inr v ↦ elim (Bool-cases (opts.version == 2)) [
        | inl v2 ↦
            let n : (l.durable_close == 0) ≡ false = ground (arith, w.second) in
            let a : ltb 0 l.durable_close ≡ true = ground (arith, w.first, w.second) in
            let b : ltb l.exact_name l.durable_close ≡ true = ground (arith, w.second) in
            let c : ltb l.durable_close l.durable_close ≡ false = ground arith in
            rw (v, v2, n, a, b, c, y3) refl
        | inr v2 ↦ elim (Bool-cases (opts.version == 3)) [
          | inl v3 ↦
              let n : (l.total == 0) ≡ false = ground (arith, w.last) in
              rw (v, v2, v3, n, t, x3, y3) refl
          | inr v3 ↦ rw (v, v2, v3) refl
        ]
      ]
    ]

-- Where the members of the struct stand in the order of their declaration, `ls_opts_init` for a
-- version of 1 to 3 leaves the defaults in the members of that version, and does not touch those
-- that were added later.
pub ls_opts_init-keeps :
    (l : Layout) (o : Opts) (version : ℕ)
    → IsLayout l
    → 0 < version
    → version ≤ opts_version
    → ls_opts_init l o version ≡ record zero_opts {
      version = version;
      rank = negsuc 0;
      exact_name = if ltb version 2 then o.exact_name else false;
      durable_close = if ltb version 3 then o.durable_close else false;
    }
unfolding copy_opts opts_size ls_opts_init
ls_opts_init-keeps l o zero w p q = absurd (omega arith)
ls_opts_init-keeps l o (suc zero) w p q =
    let a : ltb 0 l.exact_name ≡ true = ground (arith, w.first) in
    let b : ltb l.exact_name l.exact_name ≡ false = ground arith in
    let c : ltb l.durable_close l.exact_name ≡ false = ground (arith, w.second) in rw (a, b, c) refl
ls_opts_init-keeps l o (suc (suc zero)) w p q =
    let a : ltb 0 l.durable_close ≡ true = ground (arith, w.first, w.second) in
    let b : ltb l.exact_name l.durable_close ≡ true = ground (arith, w.second) in
    let c : ltb l.durable_close l.durable_close ≡ false = ground arith in rw (a, b, c) refl
ls_opts_init-keeps l o (suc (suc (suc zero))) w p q =
    let a : ltb 0 l.total ≡ true = ground (arith, w.first, w.second, w.last) in
    let b : ltb l.exact_name l.total ≡ true = ground (arith, w.second, w.last) in
    let c : ltb l.durable_close l.total ≡ true = ground (arith, w.last) in rw (a, b, c) refl
ls_opts_init-keeps l o (suc (suc (suc (suc v)))) w p q = absurd (omega (arith, q))

take-all : {A : Type 0} (n : ℕ) (xs : List A) → length xs ≤ n → take n xs ≡ xs
take-all zero [] l = refl
take-all zero (x ∷ xs) l = absurd (omega arith)
take-all (suc n) [] l = refl
take-all (suc n) (x ∷ xs) l = ap (λ t. x ∷ t) (take-all n xs (omega arith))

length-path_end :
    (env : Env) (o : Opts)
    → length (env.printed (resolve_rank env o.rank)) ≤ 11
    → length (path_end env o) ≤ 22
length-path_end env o l =
    let a = length-append dot_r (env.printed (resolve_rank env o.rank) ++ dot_libspill) in
    let r = length-append (env.printed (resolve_rank env o.rank)) dot_libspill in
    elim (Bool-cases o.exact_name) [
      | inl x ↦ rw x (omega arith)
      | inr x ↦ elim (Bool-cases (is_per_rank o.parallel)) [
        | inl y ↦ rw (x, y) (omega (arith, a, r, l))
        | inr y ↦ rw (x, y) (omega arith)
      ]
    ]

length-whole_path :
    (env : Env) (name : List ℕ) (o : Opts)
    → length (env.printed (resolve_rank env o.rank)) ≤ 11
    → length (whole_path env name o) ≤ length (dir_or env o.dir) + length name + 63
unfolding whole_path
length-whole_path env name o l =
    let a : length (whole_path env name o)
        ≡ length (dir_or env o.dir) + length (path_sep ++ (name ++ path_end env o)) =
      length-append (dir_or env o.dir) (path_sep ++ (name ++ path_end env o)) in
    let b = length-append name (path_end env o) in
    let c = length-path_end env o l in omega (arith, a, b, c)

-- Where a printed rank has at most 11 characters, the buffer that `build_path` asks for is large
-- enough: `snprintf` cuts nothing off, and the path is whole, if there was memory for it.
pub build_path-whole_path :
    (env : Env) (name : List ℕ) (o : Opts) (grants : List Bool)
    → length (env.printed (resolve_rank env o.rank)) ≤ 11
    → build_path env name o grants ≡ (if granted grants then some (whole_path env name o) else none)
unfolding build_path
build_path-whole_path env name o grants l =
    let b = length-whole_path env name o l in
    let whole =
      take-all (length (dir_or env o.dir) + length name + 64 - 1) (whole_path env name o)
        (omega (arith, b)) in
    rw whole refl
