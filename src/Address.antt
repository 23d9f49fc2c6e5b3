-- ===== src/Address.antt =====
-- 275085/tm.c, the macros on virtual addresses: the segment's index with an offset in the upper bits,
-- the byte in the segment in the lower 16 bits.
pub mod RoundTrip
use Prim.Native.Nat.{bit_and, bit_or, bit_xor}
use cs_453_concurrent_algori.Common.{ℕ, ◌*◌, ◌/◌, ◌%◌, ◌^◌}

abbrev pub virt_addr_offset : ℕ
virt_addr_offset = 0x8000000

abbrev pub lsb16 : ℕ
lsb16 = 0xFFFF

-- `GET_VIRT_START_ADDR`
unfoldable pub get_virt_start_addr : ℕ
get_virt_start_addr = virt_addr_offset * 2 ^ 16

-- `GET_VIRT_ADDR`, a 64-bit pointer
unfoldable pub get_virt_addr : ℕ → ℕ
get_virt_addr seg_id = bit_or virt_addr_offset seg_id * 2 ^ 16 % 2 ^ 64

-- `EXTRACT_SEG_ID_FROM_VIRT_ADDR`: the cast to `int` keeps 32 bits. (A value from 2 ^ 31 on stands for a
-- negative index, which is no index of a segment either.)
unfoldable pub extract_seg_id : ℕ → ℕ
extract_seg_id addr = bit_xor virt_addr_offset (addr / 2 ^ 16) % 2 ^ 32

-- `EXTRACT_WORD_INDEX_FROM_VIRT_ADDR`
unfoldable pub extract_word_index : ℕ → ℕ → ℕ
extract_word_index addr align = bit_and addr lsb16 / align
