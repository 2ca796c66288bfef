-- ===== src/Codec.antt =====
-- src/open.c: the little-endian fields of the superblock and of the table of contents, and the
-- CRC-32 over the table. A buffer is the list of its bytes from the cursor on.
pub mod Laws
use Prim.Native.Nat.{bit_and}
use libspill.Base.{
  ℕ, zero, suc, ◌+◌, ◌-◌, ◌*◌, ◌/◌, ◌%◌, ◌^◌, ◌≤◌, ◌<◌, Bool, true, false, List, [], ◌∷◌, ◌++◌,
  bit_xor, ltb, if◌then◌else◌, ◌==◌,
}

-- byte `i` of the field is `(unsigned char)(v >> (8 * i))`
unfoldable pub put_bytes : ℕ → ℕ → List ℕ
put_bytes zero v = []
put_bytes (suc n) v = v % 256 ∷ put_bytes n (v / 256)

-- `v = (v << 8) | p[i]` from the last byte down; the fields do not overlap, so `|` is `+`
unfoldable pub get_bytes : ℕ → List ℕ → ℕ
get_bytes zero p = 0
get_bytes (suc n) [] = 0
get_bytes (suc n) (b ∷ p) = get_bytes n p * 256 + b

unfoldable pub put32 : ℕ → List ℕ
unfolding put_bytes
put32 v = put_bytes 4 v

unfoldable pub put64 : ℕ → List ℕ
unfolding put_bytes
put64 v = put_bytes 8 v

unfoldable pub get32 : List ℕ → ℕ
unfolding get_bytes
get32 p = get_bytes 4 p

unfoldable pub get64 : List ℕ → ℕ
unfolding get_bytes
get64 p = get_bytes 8 p

-- one round of the inner loop: the mask is all ones when the low bit is set, else zero
unfoldable pub crc_bit : ℕ → ℕ
crc_bit c = bit_xor (c / 2) (bit_and 0xedb8_8320 (if c % 2 == 1 then 0xffff_ffff else 0))

unfoldable pub crc_bits : ℕ → ℕ → ℕ
crc_bits zero c = c
crc_bits (suc k) c = crc_bits k (crc_bit c)

unfoldable pub crc_loop : List ℕ → ℕ → ℕ
crc_loop [] c = c
crc_loop (b ∷ p) c = crc_loop p (crc_bits 8 (bit_xor c b))

-- `~c` on 32 bits
unfoldable pub crc32_of : List ℕ → ℕ
unfolding crc_loop crc_bits crc_bit
crc32_of p = bit_xor (crc_loop p 0xffff_ffff) 0xffff_ffff
