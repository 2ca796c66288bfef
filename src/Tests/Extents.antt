-- ===== src/Tests/Extents.antt =====
-- A record that grows: src/store.c on a store with a hole, and a file in memory.
use libspill.Base.{ℕ, zero, suc, ◌≡◌, ◌≤◌, get_or, refl, false, some, [], ◌∷◌, arith}
use libspill.Alloc.Insert.{IsSound}
use libspill.Toc.{Rec, fresh_rec}
use libspill.Extents.{Space, ensure_extents}
use libspill.Extents.Grows.{Ensures, ensure_extents-Ensures}
use libspill.Extents.Holding.{Holding}
use libspill.Scatter.Write.{logical, capacity}
use libspill.Spill.{Tier, spill}
use libspill.Spill.Laws.{Spills, spill-Spills}
use libspill.Tests.Ram.{ram, ram-IsPosix}

-- one free page, and a file of three pages that holds no zeros
abbrev space : Space ram
space = record {
  file = record { at = λ x. 7; end = 12288; interrupts = 2 };
  alloc = record {
    fl = record { foff = 4096; len = 4096 } ∷ [];
    flcap = 16;
    file_end = 12288;
    teardown = false;
    grants = [];
    cuts = [];
  };
  retired = [];
  retcap = 0;
  buffers = [];
  cut_errors = [];
}

space-IsSound : IsSound space.alloc
space-IsSound = record { sorted = (omega arith, omega arith, omega arith); word = omega arith }

-- 6000 bytes do not fit into the hole
ensure_extents-Ensures_example :
    Ensures ram ram-IsPosix space
      (fresh_rec (97 ∷ []))
      6000
      (ensure_extents ram 6000 space (fresh_rec (97 ∷ [])))
ensure_extents-Ensures_example =
    ensure_extents-Ensures ram ram-IsPosix 6000 space (fresh_rec (97 ∷ [])) space-IsSound refl
      (omega arith) (omega arith)

abbrev in_memory : Rec
in_memory = record (fresh_rec (97 ∷ [])) { size = 3; mem = some (1 ∷ 2 ∷ 3 ∷ 0 ∷ []) }

abbrev tier : Tier
tier = record { resident = 4; lru = (97 ∷ []) ∷ [] }

in_memory-Holding : Holding ram ram-IsPosix space in_memory
unfolding logical capacity
in_memory-Holding = record {
  apart = tt;
  used = λ x i. absurd cc;
  total = refl;
  slots = omega arith;
  tail = λ p l. refl;
  fits = (omega arith, λ p l. zeros_after p l);
}
  where
    zeros_after : (p : ℕ) → 3 ≤ p → get_or {A = ℕ} (1 ∷ 2 ∷ 3 ∷ 0 ∷ []) p 0 ≡ 0
    zeros_after zero l = absurd (omega arith)
    zeros_after (suc zero) l = absurd (omega arith)
    zeros_after (suc (suc zero)) l = absurd (omega arith)
    zeros_after (suc (suc (suc zero))) l = refl
    zeros_after (suc (suc (suc (suc p)))) l = refl

spill-Spills_example : Spills ram ram-IsPosix space tier in_memory (spill ram space tier in_memory)
spill-Spills_example =
    spill-Spills ram ram-IsPosix space tier in_memory in_memory-Holding (omega arith) space-IsSound
      refl (omega arith)
