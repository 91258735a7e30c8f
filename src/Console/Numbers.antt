-- ===== src/Console/Numbers.antt =====
-- `itoa_printf` and `itoh_printf`: a number as text, written at `buf`. The kernel's and the C
-- library's copies have the same text.
pub mod Digits
use my_sbuos.Base.{
  ℕ, zero, suc, ◌+◌, ◌-◌, ◌*◌, ◌/◌, ◌%◌, ◌^◌, ◌≤◌, ◌<◌, ◌≡◌, refl, sym, ap, ap₂, ◌∙◌, ◌≢◌, ◌⊎◌, inl,
  inr, Bool, true, false, not, ◌&&◌, ◌||◌, Option, none, some, List, [], ◌∷◌, ◌++◌, map, append-nil,
  append_assoc, arith, ltb, leb, ◌==◌, if◌then◌else◌, Bool-cases, Option-cases, ltb→lt, lt→ltb,
  leb→le, eq→==, ne→==, ==_iff, length, get_or, length-append, All, All-append, NotIn, Distinct,
  NotIn-append, Distinct-snoc, mem, NotIn-of_mem, mem_of_NotIn, mem-append, update, update_self,
  update_other, Holds, Holds-agree, Holds-append, Holds-append_left, Holds-append_right, subst,
}

-- `while (temp) { i++; temp /= base; }`; the fuel is the value and one more.
pub count_digits : ℕ → (base temp i : ℕ) → ℕ
count_digits zero base temp i = i
count_digits (suc f) base temp i =
    let rest = count_digits f base (temp / base) (i + 1) in if temp == 0 then i else rest

-- `temp>9 ? 'A'+(temp-10) : '0'+temp`
unfoldable pub hex_digit : ℕ → ℕ
hex_digit temp = if ltb 9 temp then 65 + (temp - 10) else 48 + temp

unfoldable pub dec_digit : ℕ → ℕ
dec_digit temp = 48 + temp

-- `for (i--; i >= 0; i--)`: the digits from place `i - 1` down to place 0.
pub put_digits : (digit : ℕ → ℕ) (base i n : ℕ) → (ℕ → ℕ) → (buf : ℕ) → ℕ → ℕ
put_digits digit base zero n mem buf = mem
put_digits digit base (suc i) n mem buf =
    put_digits digit base i (n / base) (update mem (buf + i) (digit (n % base))) buf

-- `int temp = n` keeps the low 32 bits; a negative one has the digits of its magnitude.
pub int_magnitude : ℕ → ℕ
int_magnitude n = if ltb (n % 2 ^ 32) (2 ^ 31) then n % 2 ^ 32 else 2 ^ 32 - n % 2 ^ 32

unfoldable pub itoa_printf : (mem : ℕ → ℕ) (buf n : ℕ) → ℕ → ℕ
itoa_printf mem buf n =
    let temp = int_magnitude n in
    let i = count_digits (suc temp) 10 temp 0 in
    if n == 0
    then update (update mem buf 48) (buf + 1) 0
    else put_digits dec_digit 10 i n (update mem (buf + i) 0) buf

unfoldable pub itoh_printf : (mem : ℕ → ℕ) (buf n : ℕ) → ℕ → ℕ
itoh_printf mem buf n =
    let i = count_digits (suc n) 16 n 0 in
    if n == 0
    then update (update mem buf 48) (buf + 1) 0
    else put_digits hex_digit 16 i n (update mem (buf + i) 0) buf
