-- ===== src/Programs/Number.antt =====
-- `atoi` reads the decimal text of a number back.
use my_sbuos.Base.{
  ℕ, zero, suc, ◌+◌, ◌*◌, ◌%◌, ◌^◌, ◌≤◌, ◌<◌, ◌≡◌, refl, sym, ap, ◌∙◌, inl, inr, true, false, List,
  [], ◌∷◌, ◌++◌, map, arith, ltb, leb, ◌==◌, Bool-cases, leb→le, ==_iff, length, All, mem, update,
  update_self, update_other, Holds, subst,
}
use native.Mathlib.Nat.{mul-le-mul_right, pow-succ', mul_assoc}
use my_sbuos.Console.Numbers.{dec_digit, itoa_printf}
use my_sbuos.Console.Numbers.Digits.{value_from, NoLeadingZero, Printed, itoa_printf-Printed}
use my_sbuos.Programs.{digit_of, atoi_loop, atoi}

-- More digits never make a value smaller.
value_from-grows :
    (acc : ℕ) (ds : List ℕ) (k : ℕ) → k ≤ length ds → acc * 10 ^ k ≤ value_from 10 acc ds
value_from-grows acc [] k h = let none_left : k ≡ 0 = omega arith in rw none_left (omega arith)
value_from-grows acc (d ∷ ds) zero h =
    omega (arith, value_from-grows (acc * 10 + d) ds 0 (omega arith))
value_from-grows acc (d ∷ ds) (suc k) h =
    let more = value_from-grows (acc * 10 + d) ds k (omega arith) in
    let step : acc * 10 * 10 ^ k ≤ (acc * 10 + d) * 10 ^ k =
      mul-le-mul_right (10 ^ k) (omega arith) in
    let same : acc * 10 ^ suc k ≡ acc * 10 * 10 ^ k =
      ap (λ p. acc * p) (pow-succ' 10 k) ∙ sym (mul_assoc acc 10 (10 ^ k)) in
    omega (arith, more, step, same)

-- A number below 2 ^ 32 has at most thirty digits.
digits_bound : (ds : List ℕ) → NoLeadingZero ds → value_from 10 0 ds < 2 ^ 32 → length ds ≤ 30
digits_bound [] h v = omega arith
digits_bound (d ∷ ds) h v = elim (Bool-cases (leb 30 (length ds))) [
  | inl long ↦
      let grown = value_from-grows (0 * 10 + d) ds 30 (leb→le 30 (length ds) long) in
      let first : 1 ≤ d = ground (arith, h) in absurd (omega (arith, grown, first, v))
  | inr short ↦ ground (arith, short)
]

digit_of-dec_digit : (d : ℕ) → d < 10 → digit_of (dec_digit d) ≡ d
unfolding dec_digit
digit_of-dec_digit d h = let low : ltb (48 + d) 128 ≡ true = ground arith in rw low (omega arith)

atoi_loop-digits :
    (left : ℕ) (m : ℕ → ℕ) (s i res : ℕ) (ds : List ℕ)
    → Holds m (s + i) (map dec_digit ds ++ 0 ∷ [])
    → All (λ d. d < 10) ds
    → length ds ≤ left
    → value_from 10 res ds < 2 ^ 32
    → atoi_loop left m s i res ≡ value_from 10 res ds
unfolding atoi_loop dec_digit
atoi_loop-digits zero m s i res [] text small enough below = refl
atoi_loop-digits zero m s i res (d ∷ ds) text small enough below = absurd (omega arith)
atoi_loop-digits (suc n) m s i res [] text small enough below =
    let end_ : (m (s + i) == 0) ≡ true = ground (arith, text.0) in rw end_
atoi_loop-digits (suc n) m s i res (d ∷ ds) text small enough below =
    let at : m (s + i) ≡ 48 + d = text.0 in
    let busy : (m (s + i) == 0) ≡ false = ground (arith, at) in
    let digit : digit_of (m (s + i)) ≡ d = ap digit_of at ∙ digit_of-dec_digit d small.0 in
    let value_grows : (res * 10 + d) * 1 ≤ value_from 10 (res * 10 + d) ds =
      value_from-grows (res * 10 + d) ds 0 (omega arith) in
    let fits : (res * 10 + d) % 2 ^ 32 ≡ res * 10 + d = omega (arith, value_grows, below) in
    let place : suc (s + i) ≡ s + suc i = omega arith in
    let rest =
      atoi_loop-digits n m s (suc i) (res * 10 + d) ds
        (subst (λ p. Holds m p (map dec_digit ds ++ 0 ∷ [])) place text.1) small.1 (omega arith)
        below in
    rw (busy, digit, fits) rest

-- `atoi` gives back the number whose decimal text, without a leading zero, stands at `s`, when it is
-- below 2 ^ 32.
pub atoi-Printed :
    (mem m : ℕ → ℕ) (s n : ℕ) → n < 2 ^ 32 → Printed 10 dec_digit n s mem m → atoi m s ≡ n
unfolding atoi
atoi-Printed mem m s n below p =
    let here : s ≡ s + 0 = omega arith in
    let value = p.value in
    atoi_loop-digits 30 m s 0 0 p.digits
      (subst (λ q. Holds m q (map dec_digit p.digits ++ 0 ∷ [])) here p.holds) p.small
      (digits_bound p.digits p.leading (omega (arith, value, below))) (omega (arith, value, below))
    ∙ value

zero_text :
    (mem : ℕ → ℕ) (buf : ℕ)
    → Holds (itoa_printf mem buf 0) (buf + 0) (map dec_digit (0 ∷ []) ++ 0 ∷ [])
unfolding itoa_printf dec_digit
zero_text mem buf =
    let start : buf + 0 ≡ buf = omega arith in
    let next : suc buf ≡ buf + 1 = omega arith in
    rw (start, next)
      (
        update_other (update mem buf 48) (buf + 1) buf 0 (λ e. omega (arith, e))
            ∙ update_self mem buf 48,
        (update_self (update mem buf 48) (buf + 1) 0, tt),
      )

-- What `itoa_printf` writes of a number below 2 ^ 31, zero too, `atoi` reads back.
pub atoi-itoa_printf : (mem : ℕ → ℕ) (buf n : ℕ) → n < 2 ^ 31 → atoi (itoa_printf mem buf n) buf ≡ n
unfolding atoi
atoi-itoa_printf mem buf n below = elim (Bool-cases (n == 0)) [
  | inl e ↦
      subst (λ k. atoi (itoa_printf mem buf k) buf ≡ k) (sym ((==_iff n 0).0 e))
        (atoi_loop-digits 30 (itoa_printf mem buf 0) buf 0 0 (0 ∷ []) (zero_text mem buf)
          (omega arith, tt) (omega arith) (omega arith))
  | inr e ↦
      atoi-Printed mem (itoa_printf mem buf n) buf n (omega arith)
        (itoa_printf-Printed mem buf n (ground (arith, e)) below)
]
