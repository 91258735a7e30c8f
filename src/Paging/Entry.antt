-- ===== src/Paging/Entry.antt =====
-- The word of the tables that maps a page of the kernel, in numbers.
use my_sbuos.Base.{ℕ, ◌+◌, ◌*◌, ◌/◌, ◌%◌, ◌^◌, ◌≡◌, ◌≢◌, ap, ◌∙◌, arith}
use Prim.Native.Nat.{bit_and, bit_or}
use my_sbuos.Base.Bits.{
  up, down, ones, bit_or-up, bit_and-up, bit_and-ones, bit_and-high, and_none_fuel,
}
use my_sbuos.Paging.{leaf_entry, frame_mask}

-- Bits 12 to 51 of the address, with the bits for present and writable.
abbrev pub kernel_entry : (phys : ℕ) → ℕ
kernel_entry phys = phys / 4096 % 2 ^ 40 * 4096 + 3

mask_40 : (a : ℕ) → bit_and a (ones 40) ≡ a % 2 ^ 40
mask_40 a =
    let h = a / 2 ^ 40 in
    let split : a ≡ up 40 h + a % 2 ^ 40 = omega arith in
    let none : bit_and h 0 ≡ 0 = and_none_fuel h h (omega arith) in
    ap (λ x. bit_and x (ones 40)) split
    ∙ bit_and-high 40 h 0 (a % 2 ^ 40) (omega arith)
    ∙ rw none (omega arith)

pub leaf_entry-kernel_entry : (phys : ℕ) → leaf_entry phys ≡ kernel_entry phys
unfolding leaf_entry
leaf_entry-kernel_entry phys =
    let q = phys / 4096 % 2 ^ 40 in
    let part : bit_and (down 12 phys) (ones 40) ≡ q = mask_40 (down 12 phys) ∙ omega arith in
    ap (λ a. bit_or a 3) (bit_and-up 12 phys (ones 40) ∙ ap (up 12) part)
    ∙ bit_or-up 12 q 3 (omega arith)
    ∙ omega arith

-- The mask gives the frame of the entry back.
pub kernel_entry-frame :
    (phys : ℕ) → bit_and (kernel_entry phys) frame_mask ≡ phys / 4096 % 2 ^ 40 * 4096
kernel_entry-frame phys =
    let q = phys / 4096 % 2 ^ 40 in
    let shifted : down 12 (q * 4096 + 3) ≡ q = omega arith in
    bit_and-up 12 (q * 4096 + 3) (ones 40)
    ∙ ap (up 12) (ap (λ a. bit_and a (ones 40)) shifted ∙ bit_and-ones 40 q (omega arith))
    ∙ omega arith

pub kernel_entry-present : (phys : ℕ) → kernel_entry phys ≢ 0
kernel_entry-present phys e = omega (arith, e)
