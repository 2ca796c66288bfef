-- ===== src/Pool.antt =====
-- src/async.c: `ls_pool_start`. The environment variable LIBSPILL_IO_THREADS and `strtol` in base 10
-- are parameters; `created` says of each coming `ls_thread_create` whether it succeeds, and past its
-- end they all do.
use libspill.Base.{
  ℕ, zero, suc, ◌≤◌, ◌<◌, ◌≡◌, refl, Bool, true, false, ◌&&◌, Option, none, some, List, [], ◌∷◌,
  arith, ltb, if◌then◌else◌, ◌==◌, ◌⊎◌, inl, inr,
}
use libspill.Alloc.{granted, later_grants}
use libspill.Status.{errno, no_memory, Result, ok, fail}
use libspill.Options.{ℤ, pos, negsuc}

abbrev pub threads_default : ℕ
threads_default = 4

abbrev pub eagain : ℕ
eagain = 11

abbrev pub threads_in : ℤ → ℕ
threads_in (pos v) = if ltb 0 v && ltb v 256 then v else threads_default
threads_in (negsuc v) = threads_default

abbrev pub threads_wanted : (List ℕ → ℤ) → Option (List ℕ) → ℕ
threads_wanted strtol none = threads_default
threads_wanted strtol (some []) = threads_default
threads_wanted strtol (some (c ∷ e)) = threads_in (strtol (c ∷ e))

-- how many of `n` threads are created before the first failure
unfoldable pub create_threads : ℕ → List Bool → ℕ
create_threads zero created = 0
create_threads (suc n) created =
    let rest = create_threads n (later_grants created) in if granted created then suc rest else 0

-- the number of threads, or an error; `mem` says whether `calloc` succeeds
unfoldable pub ls_pool_start : (List ℕ → ℤ) → Option (List ℕ) → Bool → List Bool → Result ℕ
unfolding create_threads
ls_pool_start strtol var mem created =
    let n = create_threads (threads_wanted strtol var) created in
    if mem then (if n == 0 then fail (errno eagain) else ok n) else fail no_memory

threads_wanted-bounds :
    (strtol : List ℕ → ℤ) (var : Option (List ℕ))
    → (0 < threads_wanted strtol var) × (threads_wanted strtol var < 256)
threads_wanted-bounds strtol none = (omega arith, omega arith)
threads_wanted-bounds strtol (some []) = (omega arith, omega arith)
threads_wanted-bounds strtol (some (c ∷ e)) = in_bounds (strtol (c ∷ e))
  where
    in_bounds : (v : ℤ) → (0 < threads_in v) × (threads_in v < 256)
    in_bounds (pos v) = (ground arith, ground arith)
    in_bounds (negsuc v) = (omega arith, omega arith)

create_threads-le : (n : ℕ) (created : List Bool) → create_threads n created ≤ n
unfolding create_threads
create_threads-le zero created = omega arith
create_threads-le (suc n) created =
    let l = create_threads-le n (later_grants created) in ground (arith, l)

create_threads-all : (n : ℕ) → create_threads n [] ≡ n
unfolding create_threads
create_threads-all zero = refl
create_threads-all (suc n) = let e = create_threads-all n in ground (arith, e)

started-eq :
    (n k : ℕ) (mem : Bool)
    → (if mem then (if n == 0 then fail (errno eagain) else ok n) else fail no_memory) ≡ ok k
    → (n ≡ k) × (0 < k)
started-eq zero k false e = absurd cc
started-eq zero k true e = absurd cc
started-eq (suc n) k false e = absurd cc
started-eq (suc n) k true e =
    let z : (suc n == 0) ≡ false = ground arith in
    let e' : ok (suc n) ≡ ok k = rw z at e in
    let same : suc n ≡ k = cc in (same, omega (arith, same))

-- what `strtol` makes of the variable, where it is set and not empty
abbrev pub asked_for : (List ℕ → ℤ) → Option (List ℕ) → Option ℤ
asked_for strtol none = none
asked_for strtol (some []) = none
asked_for strtol (some (c ∷ e)) = some (strtol (c ∷ e))

-- What starts with memory and all threads at hand.
pub record Sized (asked : Option ℤ) (n : ℕ) : Type 0 where
  pub as_asked : (v : ℕ) → asked ≡ some (pos v) → 0 < v → v < 256 → n ≡ v
  pub not_asked : asked ≡ none → n ≡ 4
  pub too_many : (v : ℕ) → asked ≡ some (pos v) → (v ≡ 0) ⊎ (256 ≤ v) → n ≡ 4
  pub negative : (v : ℕ) → asked ≡ some (negsuc v) → n ≡ 4

threads_in-Sized : (v : ℤ) → Sized (some v) (threads_in v)
threads_in-Sized (pos v) = record {
  as_asked = λ w e lo hi. let same : v ≡ w = pos_eq e in ground (arith, same, lo, hi);
  not_asked = λ e. absurd cc;
  too_many = λ w e out.
      let same : v ≡ w = pos_eq e in
      elim out [ inl z ↦ ground (arith, same, z) | inr z ↦ ground (arith, same, z) ];
  negative = λ w e. absurd cc;
}
  where
    pos_eq : {a b : ℕ} → some (pos a) ≡ some (pos b) → a ≡ b
    pos_eq e = cc
threads_in-Sized (negsuc v) = record {
  as_asked = λ w e lo hi. absurd cc;
  not_asked = λ e. absurd cc;
  too_many = λ w e out. refl;
  negative = λ w e. refl;
}

threads_wanted-Sized :
    (strtol : List ℕ → ℤ) (var : Option (List ℕ))
    → Sized (asked_for strtol var) (threads_wanted strtol var)
threads_wanted-Sized strtol none = record {
  as_asked = λ w e lo hi. absurd cc;
  not_asked = λ e. refl;
  too_many = λ w e out. absurd cc;
  negative = λ w e. absurd cc;
}
threads_wanted-Sized strtol (some []) = record {
  as_asked = λ w e lo hi. absurd cc;
  not_asked = λ e. refl;
  too_many = λ w e out. absurd cc;
  negative = λ w e. absurd cc;
}
threads_wanted-Sized strtol (some (c ∷ e)) = threads_in-Sized (strtol (c ∷ e))

-- Where memory is at hand and every thread can be created, `ls_pool_start` starts as many threads as
-- the variable asks for, if that is from 1 to 255, and 4 where the variable is unset, empty, zero,
-- negative or larger. A pool that it reports started, whatever threads could be created, has at
-- least one thread and at most that number.
pub ls_pool_start-bounds :
    (strtol : List ℕ → ℤ) (var : Option (List ℕ)) (mem : Bool) (created : List Bool)
    → (n : ℕ) × (ls_pool_start strtol var true [] ≡ ok n)
      × Sized (asked_for strtol var) n
      × (n < 256)
      × ((k : ℕ) → ls_pool_start strtol var mem created ≡ ok k → (0 < k) × (k ≤ n))
unfolding ls_pool_start
ls_pool_start-bounds strtol var mem created =
    let w = threads_wanted-bounds strtol var in
    let l = create_threads-le (threads_wanted strtol var) created in
    let a = create_threads-all (threads_wanted strtol var) in
    let some_threads : (threads_wanted strtol var == 0) ≡ false = ground (arith, w.0) in
    (
      threads_wanted strtol var,
      rw (a, some_threads) refl,
      threads_wanted-Sized strtol var,
      w.1,
      λ k e.
          let s = started-eq (create_threads (threads_wanted strtol var) created) k mem e in
          (s.1, omega (arith, s.0, l)),
    )
