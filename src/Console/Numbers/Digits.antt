-- ===== src/Console/Numbers/Digits.antt =====
-- The texts that `itoa_printf` and `itoh_printf` write read back as the number.
use mathlib.Core.List.{map-append}
use native.Mathlib.Nat.{div-add-mod', div-lt_self, mod-lt}
use my_sbuos.Base.{
  ℕ, zero, suc, ◌+◌, ◌*◌, ◌/◌, ◌%◌, ◌^◌, ◌≤◌, ◌<◌, ◌≡◌, refl, sym, ap, ◌∙◌, ◌≢◌, ◌⊎◌, inl, inr,
  true, false, List, [], ◌∷◌, ◌++◌, map, arith, ltb, ◌==◌, Bool-cases, lt→ltb, ==_iff, length,
  length-append, All, All-append, mem, update, update_self, update_other, Holds, Holds-append,
  subst,
}
use my_sbuos.Console.Numbers.{
  count_digits, hex_digit, dec_digit, put_digits, int_magnitude, itoa_printf, itoh_printf,
}

-- The value of a list of digits, the first one the highest.
abbrev pub value_from : (base acc : ℕ) → List ℕ → ℕ
value_from base acc [] = acc
value_from base acc (d ∷ ds) = value_from base (acc * base + d) ds

value_from-append :
    (base acc d : ℕ) (ds : List ℕ)
    → value_from base acc (ds ++ d ∷ []) ≡ value_from base acc ds * base + d
value_from-append base acc d [] = refl
value_from-append base acc d (x ∷ ds) = value_from-append base (acc * base + x) d ds

-- `n` has exactly `c` digits.
abbrev Exact : (base c n : ℕ) → Type 0
Exact base zero n = n ≡ 0
Exact base (suc c) n = (n ≢ 0) × Exact base c (n / base)

abbrev pub NoLeadingZero : List ℕ → Type 0
NoLeadingZero [] = Unit {0}
NoLeadingZero (d ∷ ds) = d ≢ 0

length-map : (f : ℕ → ℕ) (xs : List ℕ) → length (map f xs) ≡ length xs
length-map f [] = refl
length-map f (x ∷ xs) = ap suc (length-map f xs)

module _ (base : ℕ) (big : 1 < base) where
  div-lt : (n : ℕ) → n ≢ 0 → n / base < n
  div-lt n h = div-lt_self (omega arith) big

  count_digits-Exact :
      (f temp i : ℕ) → temp < f → (c : ℕ) × (count_digits f base temp i ≡ i + c) × Exact base c temp
  unfolding count_digits
  count_digits-Exact zero temp i h = absurd (omega arith)
  count_digits-Exact (suc f) temp i h = elim (Bool-cases (temp == 0)) [
    | inl e ↦ (0, rw e (omega arith), (==_iff temp 0).0 e)
    | inr e ↦
        let some_left : temp ≢ 0 = ground arith in
        let r = count_digits-Exact f (temp / base) (i + 1) (omega (arith, div-lt temp some_left)) in
        (suc r.0, rw e (omega (arith, r.1)), (some_left, r.2))
  ]

  -- What the loop has written: the digits of `n` and nothing else.
  record Written (digit : ℕ → ℕ) (i n buf : ℕ) (mem mem' : ℕ → ℕ) : Type 0 where
    digits : List ℕ
    count : length digits ≡ i
    value : value_from base 0 digits ≡ n
    small : All (λ d. d < base) digits
    leading : NoLeadingZero digits
    holds : Holds mem' buf (map digit digits)
    others : (j : ℕ) → (j < buf) ⊎ (buf + i ≤ j) → mem' j ≡ mem j

  NoLeadingZero-snoc :
      (ds : List ℕ) (d : ℕ)
      → NoLeadingZero ds
      → (length ds ≡ 0 → d ≢ 0)
      → NoLeadingZero (ds ++ d ∷ [])
  NoLeadingZero-snoc [] d h k = k refl
  NoLeadingZero-snoc (x ∷ ds) d h k = h

  -- A number of one digit is that digit.
  lone : (i : ℕ) {n m : ℕ} → m ≡ 0 → m ≡ i → Exact base (suc i) n → n % base ≢ 0
  lone i {n} z c e w = lone_zero (sym c ∙ z)
    where
      lone_zero : i ≡ 0 → ⊥
      lone_zero q =
          let rest : n / base ≡ 0 = subst (λ k. Exact base k (n / base)) q e.1 in
          e.0 (omega (arith, div-add-mod' n base, ap (λ (t : ℕ). t * base) rest))

  put_digits-Written :
      (digit : ℕ → ℕ) (i n buf : ℕ) (mem : ℕ → ℕ)
      → Exact base i n
      → Written digit i n buf mem (put_digits digit base i n mem buf)
  unfolding put_digits
  put_digits-Written digit zero n buf mem e = record {
    digits = [];
    count = refl;
    value = sym e;
    small = tt;
    leading = tt;
    holds = tt;
    others = λ j o. refl;
  }
  put_digits-Written digit (suc i) n buf mem e =
      let d = n % base in
      let r = put_digits-Written digit i (n / base) buf (update mem (buf + i) (digit d)) e.1 in
      record {
        digits = r.digits ++ d ∷ [];
        count = omega (arith, length-append r.digits (d ∷ []), r.count);
        value =
            value_from-append base 0 d r.digits
            ∙ ap (λ v. v * base + d) r.value
            ∙ div-add-mod' n base;
        small = All-append (λ x. x < base) r.digits (d ∷ []) r.small (mod-lt n (omega arith), tt);
        leading = NoLeadingZero-snoc r.digits d r.leading (λ z. lone i z r.count e);
        holds = rw (map-append digit r.digits (d ∷ [])) (
            Holds-append _ buf (map digit r.digits) (digit d ∷ []) r.holds (
              r.others (buf + length (map digit r.digits))
                    (inr (omega (arith, length-map digit r.digits, r.count)))
                  ∙ ap (λ (k : ℕ). update mem (buf + i) (digit d) k)
                      (omega (arith, length-map digit r.digits, r.count))
                  ∙ update_self mem (buf + i) (digit d),
              tt,
            ));
        others =
            λ j o. r.others j (omega arith) ∙ update_other mem (buf + i) j (digit d) (omega arith);
      }

-- A number in the caller's memory: the digits' characters, then a zero, and nothing else written.
pub record Printed (base : ℕ) (digit : ℕ → ℕ) (n buf : ℕ) (mem mem' : ℕ → ℕ) : Type 0 where
  pub digits : List ℕ
  pub holds : Holds mem' buf (map digit digits ++ 0 ∷ [])
  pub value : value_from base 0 digits ≡ n
  pub small : All (λ d. d < base) digits
  pub leading : NoLeadingZero digits
  pub others : (j : ℕ) → (j < buf) ⊎ (buf + length digits < j) → mem' j ≡ mem j

put_number-Printed :
    (base : ℕ) (digit : ℕ → ℕ) (n buf : ℕ) (mem : ℕ → ℕ)
    → 1 < base
    → let i = count_digits (suc n) base n 0 in
      Printed base digit n buf mem (put_digits digit base i n (update mem (buf + i) 0) buf)
put_number-Printed base digit n buf mem big =
    let c = count_digits-Exact base big (suc n) n 0 (omega arith) in
    let i = count_digits (suc n) base n 0 in
    let exact : Exact base i n = subst (λ k. Exact base k n) (omega (arith, c.1)) c.2 in
    let w = put_digits-Written base big digit i n buf (update mem (buf + i) 0) exact in
    record {
      digits = w.digits;
      holds = Holds-append _ buf (map digit w.digits) (0 ∷ []) w.holds (
        w.others (buf + length (map digit w.digits))
              (inr (omega (arith, length-map digit w.digits, w.count)))
            ∙ ap (λ (k : ℕ). update mem (buf + i) 0 k)
                (omega (arith, length-map digit w.digits, w.count))
            ∙ update_self mem (buf + i) 0,
        tt,
      );
      value = w.value;
      small = w.small;
      leading = w.leading;
      others = λ j o.
          w.others j (omega (arith, w.count))
          ∙ update_other mem (buf + i) j 0 (omega (arith, w.count));
    }

-- `itoa_printf` writes the decimal text of a number below 2 ^ 31: digits without a leading zero
-- that read back as the number, and a zero behind them; nothing else is written.
pub itoa_printf-Printed :
    (mem : ℕ → ℕ) (buf n : ℕ)
    → 0 < n
    → n < 2 ^ 31
    → Printed 10 dec_digit n buf mem (itoa_printf mem buf n)
unfolding itoa_printf int_magnitude
itoa_printf-Printed mem buf n pos small =
    let busy : (n == 0) ≡ false = ground arith in
    let same : n % 2 ^ 32 ≡ n = omega arith in
    let below : ltb n (2 ^ 31) ≡ true = lt→ltb n (2 ^ 31) small in
    rw (busy, same, below) (put_number-Printed 10 dec_digit n buf mem (omega arith))

-- A decimal text: at least one digit, and the first of several is not 0.
abbrev pub IsDecimal : List ℕ → Type 0
IsDecimal [] = ⊥
IsDecimal (d ∷ []) = d < 10
IsDecimal (d ∷ e ∷ ds) = (d ≢ 0) × All (λ x. x < 10) (d ∷ e ∷ ds)

-- The ASCII text of `n` at `buf`, a zero behind it, and nothing else written.
pub record Decimal (n buf : ℕ) (mem mem' : ℕ → ℕ) : Type 0 where
  pub digits : List ℕ
  pub shape : IsDecimal digits
  pub value : value_from 10 0 digits ≡ n
  pub holds : Holds mem' buf (map (λ d. 48 + d) digits ++ 0 ∷ [])
  pub others : (j : ℕ) → (j < buf) ⊎ (buf + length digits < j) → mem' j ≡ mem j

IsDecimal-shape :
    (n : ℕ) (ds : List ℕ)
    → 0 < n
    → value_from 10 0 ds ≡ n
    → All (λ d. d < 10) ds
    → NoLeadingZero ds
    → IsDecimal ds
IsDecimal-shape n [] pos v small lead = absurd (omega (arith, pos, v))
IsDecimal-shape n (d ∷ []) pos v small lead = small.0
IsDecimal-shape n (d ∷ e ∷ ds) pos v small lead = (lead, small)

-- `itoa_printf` writes the decimal text of a number below 2 ^ 31, zero too: the ASCII digits without a
-- leading zero, or the one digit 0, that read back as the number, and a zero byte behind them; nothing
-- else is written.
pub itoa_printf-Decimal :
    (mem : ℕ → ℕ) (buf n : ℕ) → n < 2 ^ 31 → Decimal n buf mem (itoa_printf mem buf n)
unfolding itoa_printf dec_digit
itoa_printf-Decimal mem buf zero small = record {
  digits = 0 ∷ [];
  shape = omega arith;
  value = refl;
  holds = (
    update_other (update mem buf 48) (buf + 1) buf 0 (λ e. omega (arith, e))
        ∙ update_self mem buf 48,
    (
      ap (update (update mem buf 48) (buf + 1) 0) (omega arith)
          ∙ update_self (update mem buf 48) (buf + 1) 0,
      tt,
    ),
  );
  others = λ j o.
      update_other (update mem buf 48) (buf + 1) j 0 (λ e. omega (arith, e, o))
      ∙ update_other mem buf j 48 (λ e. omega (arith, e, o));
}
itoa_printf-Decimal mem buf (suc n) small =
    let p = itoa_printf-Printed mem buf (suc n) (omega arith) small in
    record {
      digits = p.digits;
      shape = IsDecimal-shape (suc n) p.digits (omega arith) p.value p.small p.leading;
      value = p.value;
      holds = p.holds;
      others = p.others;
    }

-- `itoh_printf` writes the hexadecimal text of any other number than 0 in the same way.
pub itoh_printf-Printed :
    (mem : ℕ → ℕ) (buf n : ℕ) → 0 < n → Printed 16 hex_digit n buf mem (itoh_printf mem buf n)
unfolding itoh_printf
itoh_printf-Printed mem buf n pos =
    let busy : (n == 0) ≡ false = ground arith in
    rw busy (put_number-Printed 16 hex_digit n buf mem (omega arith))

-- The characters of the sixteen digits differ, so that a text has one reading.
pub hex_digit-injective : (a b : ℕ) → a < 16 → b < 16 → hex_digit a ≡ hex_digit b → a ≡ b
unfolding hex_digit
hex_digit-injective a b ha hb e = ground arith
