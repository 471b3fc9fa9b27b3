-- ===== src/Replay/Bytes.antt =====
-- The numbers and checksums of server/runtime/spatial_frame_recorder.cpp and spatial_frame_player.cpp as
-- bytes. A number is stored with its lowest byte first, as on the machines the program is built for.
use rfidsystem.Prelude.{
  ℕ, zero, suc, ◌+◌, ◌-◌, ◌*◌, ◌/◌, ◌%◌, ◌^◌, ◌<◌, ◌==◌, ◌≡◌, refl, List, [], ◌∷◌, arith, length,
  u64_mod, if◌then◌else◌,
}
use rfidsystem.Prelude.Int.{ℤ, pos, negsuc}
use Prim.Native.Nat.{bit_xor}

-- A `std::string` and a buffer are lists of numbers below 256.
abbrev pub Bytes : Type 0
Bytes = List ℕ

-- The `n` bytes of a number in memory.
unfoldable pub to_bytes : ℕ → ℕ → Bytes
to_bytes zero v = []
to_bytes (suc n) v = v % 256 ∷ to_bytes n (v / 256)

unfoldable pub from_bytes : Bytes → ℕ
from_bytes [] = 0
from_bytes (b ∷ bs) = b + 256 * from_bytes bs

pub length-to_bytes : (n v : ℕ) → length (to_bytes n v) ≡ n
unfolding to_bytes
length-to_bytes zero v = refl
length-to_bytes (suc n) v = omega (arith, length-to_bytes n (v / 256))

pub from_bytes-to_bytes : (n v : ℕ) → v < 256 ^ n → from_bytes (to_bytes n v) ≡ v
unfolding to_bytes from_bytes
from_bytes-to_bytes zero v h = omega arith
from_bytes-to_bytes (suc n) v h = omega (arith, from_bytes-to_bytes n (v / 256) (grind arith))

abbrev pub u32_mod : ℕ
u32_mod = 4294967296

-- One of the eight rounds for a byte: `(crc >> 1) ^ (crc & 1 ? 0xEDB88320 : 0)`.
unfoldable pub crc_bit : ℕ → ℕ
crc_bit crc = bit_xor (crc / 2) (if crc % 2 == 1 then 0xEDB88320 else 0)

unfoldable pub crc_bits : ℕ → ℕ → ℕ
crc_bits zero crc = crc
crc_bits (suc n) crc = crc_bits n (crc_bit crc)

unfoldable pub crc_bytes : ℕ → Bytes → ℕ
crc_bytes crc [] = crc
crc_bytes crc (b ∷ bs) = crc_bytes (crc_bits 8 (bit_xor crc b)) bs

-- `~crc` of a number below 2^32.
unfoldable pub compute_checksum : Bytes → ℕ
compute_checksum bytes = u32_mod - 1 - crc_bytes 0xFFFFFFFF bytes

pub compute_checksum-lt : (bs : Bytes) → compute_checksum bs < u32_mod
unfolding compute_checksum
compute_checksum-lt bs = omega arith

-- An `int64_t` as a `uint64_t`.
abbrev pub int_to_u64 : ℤ → ℕ
int_to_u64 (pos n) = n % u64_mod
int_to_u64 (negsuc n) = u64_mod - 1 - n % u64_mod

pub int_to_u64-lt : (z : ℤ) → int_to_u64 z < u64_mod
int_to_u64-lt (pos n) = omega arith
int_to_u64-lt (negsuc n) = omega arith
