-- ===== src/Crc32.antt =====
-- src/lib/crc32.c: the table-driven checksum of every block.
mod Table
pub mod Xor
pub mod Reference
use blockdevlogger.Base.{
  ℕ, ◌+◌, ◌-◌, ◌/◌, ◌^◌, bit_and, bit_xor, List, [], ◌∷◌, ltb, if◌then◌else◌, get_or, sub32,
}
pub use Table.{crc_32_tab}

-- A byte of `const char *buf` as `unsigned int`: `char` is signed, so 0x80 and above widen to
-- 0xffffff80 and above.
abbrev pub sign_extend : ℕ → ℕ
sign_extend octet = if ltb octet 128 then octet else octet + (2 ^ 32 - 256)

-- UPDC32
pub updc32 : ℕ → ℕ → ℕ
updc32 octet crc =
    bit_xor (get_or crc_32_tab (bit_and (bit_xor crc (sign_extend octet)) 0xff) 0) (crc / 2 ^ 8)

-- The loop of `crc32buf`, from a register value.
pub crc32_from : ℕ → List ℕ → ℕ
crc32_from crc [] = crc
crc32_from crc (octet ∷ buf) = crc32_from (updc32 octet crc) buf

-- `~crc32` on 32 bits
pub crc32buf : List ℕ → ℕ
crc32buf buf = 0xffff_ffff - crc32_from 0xffff_ffff buf

-- The difference of two `uint32_t`, as the bit pattern of the returned `int`.
pub crc32cmp : List ℕ → ℕ → ℕ
crc32cmp buf crc32 = sub32 (crc32buf buf) crc32
