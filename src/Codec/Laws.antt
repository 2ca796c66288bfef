-- ===== src/Codec/Laws.antt =====
-- Reading back what was written, whatever follows it.
use libspill.Base.{
  ℕ, zero, suc, ◌/◌, ◌^◌, ◌<◌, ◌≡◌, refl, List, [], ◌∷◌, ◌++◌, arith, length, drop, ap,
}
use native.Mathlib.Nat.{pow-suc}
use libspill.Codec.{put_bytes, get_bytes, put32, put64, get32, get64, crc32_of}

pub length-put_bytes : (n v : ℕ) → length (put_bytes n v) ≡ n
unfolding put_bytes
length-put_bytes zero v = refl
length-put_bytes (suc n) v = ap suc (length-put_bytes n (v / 256))

div-pow : (n v : ℕ) → v < 256 ^ suc n → v / 256 < 256 ^ n
div-pow n v h = omega (arith, pow-suc 256 n)

get_bytes-put_bytes :
    (n v : ℕ) (rest : List ℕ) → v < 256 ^ n → get_bytes n (put_bytes n v ++ rest) ≡ v
unfolding put_bytes get_bytes
get_bytes-put_bytes zero v rest h = omega arith
get_bytes-put_bytes (suc n) v rest h =
    omega (arith, get_bytes-put_bytes n (v / 256) rest (div-pow n v h))

drop-put_bytes : (n v : ℕ) (rest : List ℕ) → drop n (put_bytes n v ++ rest) ≡ rest
unfolding put_bytes
drop-put_bytes zero v rest = refl
drop-put_bytes (suc n) v rest = drop-put_bytes n (v / 256) rest

-- A 32-bit number that `put32` writes before other bytes is what `get32` reads, and the cursor
-- behind the four bytes is at the other bytes.
pub get32-put32 :
    (v : ℕ) (rest : List ℕ)
    → v < 2 ^ 32
    → (get32 (put32 v ++ rest) ≡ v) × (drop 4 (put32 v ++ rest) ≡ rest)
unfolding get32 put32
get32-put32 v rest h = (get_bytes-put_bytes 4 v rest h, drop-put_bytes 4 v rest)

-- A 64-bit number that `put64` writes before other bytes is what `get64` reads, and the cursor
-- behind the eight bytes is at the other bytes.
pub get64-put64 :
    (v : ℕ) (rest : List ℕ)
    → v < 2 ^ 64
    → (get64 (put64 v ++ rest) ≡ v) × (drop 8 (put64 v ++ rest) ≡ rest)
unfolding get64 put64
get64-put64 v rest h = (get_bytes-put_bytes 8 v rest h, drop-put_bytes 8 v rest)

crc_check : crc32_of (49 ∷ 50 ∷ 51 ∷ 52 ∷ 53 ∷ 54 ∷ 55 ∷ 56 ∷ 57 ∷ []) ≡ 0xcbf4_3926
unfolding crc32_of
crc_check = refl
