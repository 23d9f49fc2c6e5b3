-- ===== src/Address/RoundTrip.antt =====
-- Which segment and word an address stands for.
use Prim.Native.Nat.{bit_and, bit_xor}
use cs_453_concurrent_algori.Common.{ℕ, ◌+◌, ◌*◌, ◌/◌, ◌%◌, ◌^◌, ◌<◌, ◌≡◌, arith, refl, ap}
use cs_453_concurrent_algori.Common.Bits.{bit_or_above, bit_xor_above, bit_and_lsb16}
use cs_453_concurrent_algori.Address.{
  virt_addr_offset, lsb16, get_virt_start_addr, get_virt_addr, extract_seg_id, extract_word_index,
}

base : (seg_id : ℕ) → seg_id < 2 ^ 27 → get_virt_addr seg_id ≡ (2 ^ 27 + seg_id) * 2 ^ 16
unfolding get_virt_addr
base seg_id h = omega (arith, bit_or_above 27 seg_id h)

seg_id_of : (s : ℕ) → s < 2 ^ 27 → bit_xor virt_addr_offset (2 ^ 27 + s) % 2 ^ 32 ≡ s
seg_id_of s h = omega (arith, bit_xor_above 27 s h)

-- If `seg_id + off / 2 ^ 16` is below 2 ^ 27, the byte at offset `off` from the address of segment `seg_id`
-- is read as a byte of the segment `off / 2 ^ 16` places further, at the offset that is left. Under that
-- bound an offset below 65,536 stays in the segment, and one from 65,536 on is in another segment.
pub extract-get_virt_addr :
    (seg_id off align : ℕ)
    → seg_id + off / 2 ^ 16 < 2 ^ 27
    → (extract_seg_id (get_virt_addr seg_id + off) ≡ seg_id + off / 2 ^ 16)
      × (extract_word_index (get_virt_addr seg_id + off) align ≡ off % 2 ^ 16 / align)
unfolding extract_seg_id extract_word_index
extract-get_virt_addr seg_id off align h =
    let addr = (2 ^ 27 + seg_id) * 2 ^ 16 + off in
    let upper : addr / 2 ^ 16 ≡ 2 ^ 27 + (seg_id + off / 2 ^ 16) = omega arith in
    let lower : bit_and addr lsb16 ≡ off % 2 ^ 16 = omega (arith, bit_and_lsb16 addr) in
    rw (base seg_id (omega arith))
      (rw upper (seg_id_of (seg_id + off / 2 ^ 16) h), ap (λ t. t / align) lower)

-- The first segment starts where `tm_start` says.
pub get_virt_addr-start : get_virt_addr 0 ≡ get_virt_start_addr
unfolding get_virt_addr get_virt_start_addr
get_virt_addr-start = refl
