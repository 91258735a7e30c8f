-- ===== src/Virtual/Pointers.antt =====
-- The addresses of the tables as the walk takes them apart.
use my_sbuos.Base.{ℕ, ◌+◌, ◌*◌, ◌^◌, ◌<◌, ◌≡◌, refl, ◌∙◌, arith}
use Prim.Native.Nat.{bit_or}
use my_sbuos.Base.Bits.{up, ones, bit_or-up, bit_or-high}
use my_sbuos.Paging.{table_index}
use my_sbuos.Paging.Frames.{table_index-mod}
use my_sbuos.Virtual.{self_table, upper_half, next_table}

-- The address with the index 510 on level 4 and `b`, `c`, `d` below.
abbrev pub pointer : (b c d : ℕ) → ℕ
pointer b c d = 0xffff000000000000 + 510 * 2 ^ 39 + b * 2 ^ 30 + c * 2 ^ 21 + d * 2 ^ 12

pub self_pointer : self_table ≡ pointer 510 510 510
self_pointer = refl

module _ (b c d x : ℕ) (hb : b < 512) (hc : c < 512) (hd : d < 512) (hx : x < 4096) where
  pub index-pointer_4 : table_index 4 (pointer b c d + x) ≡ 510
  index-pointer_4 = table_index-mod 4 (pointer b c d + x) ∙ omega arith

  pub index-pointer_3 : table_index 3 (pointer b c d + x) ≡ b
  index-pointer_3 = table_index-mod 3 (pointer b c d + x) ∙ omega arith

  pub index-pointer_2 : table_index 2 (pointer b c d + x) ≡ c
  index-pointer_2 = table_index-mod 2 (pointer b c d + x) ∙ omega arith

  pub index-pointer_1 : table_index 1 (pointer b c d + x) ≡ d
  index-pointer_1 = table_index-mod 1 (pointer b c d + x) ∙ omega arith

-- `next_table` drops the first 510 and appends the index.
pub next_table-pointer :
    (c d i : ℕ) → c < 512 → d < 512 → i < 512 → next_table (pointer 510 c d) i ≡ pointer c d i
unfolding next_table
next_table-pointer c d i hc hd hi =
    let l = 510 * 2 ^ 30 + c * 2 ^ 21 + d * 2 ^ 12 in
    let split : pointer 510 c d ≡ up 39 0x1fffffe + l = omega arith in
    let high : bit_or (up 39 0x1fffffe + l) upper_half ≡ up 39 0x1ffffff + l =
      bit_or-high 39 0x1fffffe (ones 25) l (omega arith) in
    let q = 0x1ffffff * 2 ^ 27 + 510 * 2 ^ 18 + c * 2 ^ 9 + d in
    let aligned : up 39 0x1ffffff + l ≡ up 12 q = omega arith in
    let low : bit_or (up 12 q) (i * 8) ≡ up 12 q + i * 8 = bit_or-up 12 q (i * 8) (omega arith) in
    rw (split, high, aligned, low) (omega arith)
