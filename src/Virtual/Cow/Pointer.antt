-- ===== src/Virtual/Cow/Pointer.antt =====
-- The address that `map_page_COW` computes for the last entry of a page.
use my_sbuos.Base.{ℕ, ◌+◌, ◌*◌, ◌/◌, ◌%◌, ◌^◌, ◌<◌, ◌≡◌, ap, ◌∙◌, arith}
use Prim.Native.Nat.{bit_and, bit_or}
use my_sbuos.Base.Bits.{up, bit_or-high, bit_and-high, bit_or-ones}
use my_sbuos.Paging.{table_index}
use my_sbuos.Paging.Frames.{table_index-mod}
use my_sbuos.Virtual.Pointers.{pointer}
use my_sbuos.Virtual.Cow.{canonical, leaf_pointer}

-- The address of the last entry is the one that the root refers to.
pub leaf_pointer-pointer :
    (virt : ℕ)
    → virt % 4096 ≡ 0
    → virt < 2 ^ 64
    → leaf_pointer virt
      ≡ pointer (table_index 4 virt) (table_index 3 virt) (table_index 2 virt)
        + 8 * table_index 1 virt
unfolding leaf_pointer
leaf_pointer-pointer virt aligned small =
    let h = virt / 2 ^ 48 in
    let l = virt % 2 ^ 48 in
    let split : virt ≡ up 48 h + l = omega arith in
    let all : bit_or h 0xffff ≡ 0xffff = bit_or-ones 16 h (omega arith) in
    let v1 : bit_or (up 48 h + l) canonical ≡ up 48 0xffff + l =
      bit_or-high 48 h 0xffff l (omega arith) ∙ ap (λ x. up 48 x + l) all in
    let v2 : bit_and (up 48 0xffff + l) 0xfffeffffffffffff ≡ up 48 0xfffe + l =
      bit_and-high 48 0xffff 0xfffe l (omega arith) in
    let l' = 0xff * 2 ^ 40 + l / 2 ^ 9 in
    let shifted : (up 48 0xfffe + l) / 2 ^ 9 ≡ up 48 0x7f + l' = omega arith in
    let v3 : bit_or (up 48 0x7f + l') canonical ≡ up 48 0xffff + l' =
      bit_or-high 48 0x7f 0xffff l' (omega arith) in
    ap leaf_pointer split
    ∙ rw
        (
          v1,
          v2,
          shifted,
          v3,
          table_index-mod 4 virt,
          table_index-mod 3 virt,
          table_index-mod 2 virt,
          table_index-mod 1 virt,
        )
        (omega arith)
