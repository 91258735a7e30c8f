-- ===== src/Format/Plain.antt =====
-- The steps of `printf` of sys/unix_helpers.c, and the text that it makes of a number.
use my_sbuos.Base.{
  ℕ, zero, suc, ◌+◌, ◌^◌, ◌<◌, ◌≡◌, refl, ap, ◌∙◌, ◌≢◌, ◌⊎◌, inl, inr, true, false, some, List, [],
  ◌∷◌, ◌++◌, map, arith, ◌==◌, ne→==, length, All, update, update_self, update_other, Holds,
}
use my_sbuos.Text.Strings.{IsString}
use my_sbuos.Console.{Console, write_k}
use my_sbuos.Console.Numbers.{dec_digit, hex_digit, itoa_printf, itoh_printf}
use my_sbuos.Console.Numbers.Digits.{
  value_from, NoLeadingZero, itoa_printf-Printed, itoh_printf-Printed, Printed,
}
use my_sbuos.Syscall.Memory.{write_all}
use my_sbuos.Format.{percent, write_string, convert, takes_arg, printf}

-- a character that is printed as it is, for one
abbrev pub Plain : ℕ → Type 0
Plain c = (c ≢ 0) × (c ≢ percent)

pub printf-letter :
    (f : ℕ) (m : ℕ → ℕ) (p c : ℕ) (args : List ℕ) (b : ℕ → ℕ) (s : Console)
    → m p ≡ c
    → Plain c
    → printf (suc f) m p args b s ≡ printf f m (suc p) args b (write_k c s)
unfolding printf
printf-letter f m p c args b s here plain =
    let more : (m p == 0) ≡ false = rw here (ne→== c 0 plain.0) in
    let letter : (m p == percent) ≡ false = rw here (ne→== c percent plain.1) in
    rw (printf, more) (rw letter (ap (λ v. printf f m (suc p) args b (write_k v s)) here))

pub printf-end :
    (f : ℕ) (m : ℕ → ℕ) (p : ℕ) (args : List ℕ) (b : ℕ → ℕ) (s : Console)
    → m p ≡ 0
    → printf (suc f) m p args b s ≡ some (b, s)
unfolding printf
printf-end f m p args b s here = rw (here, printf) refl

-- a conversion, and what follows it
pub printf-convert :
    (f : ℕ) (m : ℕ → ℕ) (p c arg : ℕ) (args : List ℕ) (b b' : ℕ → ℕ) (s s' : Console)
    → m p ≡ percent
    → m (suc p) ≡ c
    → takes_arg c ≡ true
    → convert (λ b₁ s₁. printf f b₁ 0 [] b₁ s₁) f m c arg b s ≡ some (b', s')
    → printf (suc f) m p (arg ∷ args) b s ≡ printf f m (suc (suc p)) args b' s'
unfolding printf
printf-convert f m p c arg args b b' s s' here there takes done =
    let more : (m p == 0) ≡ false = rw here refl in
    let sign : (m p == percent) ≡ true = rw here refl in
    let takes' : takes_arg (m (suc p)) ≡ true = rw there takes in
    let done' : convert (λ b₁ s₁. printf f b₁ 0 [] b₁ s₁) f m (m (suc p)) arg b s ≡ some (b', s') =
      rw there done in
    rw (printf, more) (rw sign (rw takes' (rw done' refl)))

pub printf-Plain :
    (f : ℕ) (m : ℕ → ℕ) (p : ℕ) (cs : List ℕ) (b : ℕ → ℕ) (s : Console)
    → All Plain cs
    → Holds m p (cs ++ 0 ∷ [])
    → length cs < f
    → printf f m p [] b s ≡ some (b, write_all cs s)
printf-Plain zero m p cs b s plain h fuel = absurd (omega arith)
printf-Plain (suc f) m p [] b s plain h fuel = printf-end f m p [] b s h.0
printf-Plain (suc f) m p (c ∷ cs) b s plain h fuel =
    printf-letter f m p c [] b s h.0 plain.0
    ∙ printf-Plain f m (suc p) cs b (write_k c s) plain.1 h.1 (omega arith)

-- the buffer after a string was written through its first place
abbrev pub put_all : (ℕ → ℕ) → List ℕ → ℕ → ℕ
put_all b [] = b
put_all b (c ∷ cs) = put_all (update b 0 c) cs

pub write_string-write_all :
    (f : ℕ) (m : ℕ → ℕ) (str : ℕ) (cs : List ℕ) (b : ℕ → ℕ) (s : Console)
    → IsString m str cs
    → length cs < f
    → write_string f m str b s ≡ some (put_all b cs, write_all cs s)
unfolding write_string
write_string-write_all zero m str cs b s h fuel = absurd (omega arith)
write_string-write_all (suc f) m str [] b s h fuel = rw h.held.0 refl
write_string-write_all (suc f) m str (c ∷ cs) b s h fuel =
    let more : (c == 0) ≡ false = ne→== c 0 h.bytes.0.0 in
    let tail : IsString m (suc str) cs = record { bytes = h.bytes.1; held = h.held.1 } in
    rw (h.held.0, more)
      (write_string-write_all f m (suc str) cs (update b 0 c) (write_k c s) tail (omega arith))

-- The text of a number: `0`, or digits of the base with the number's value, the first of them not 0.
abbrev pub Numeral : (base : ℕ) (digit : ℕ → ℕ) (n : ℕ) → List ℕ → Type 0
Numeral base digit n out =
    ((n ≡ 0) × (out ≡ 48 ∷ []))
    ⊎ ((ds : List ℕ) × (out ≡ map digit ds)
        × (value_from base 0 ds ≡ n)
        × All (λ d. d < base) ds
        × NoLeadingZero ds)

-- digits are plain characters
All-Plain :
    (base : ℕ) (digit : ℕ → ℕ)
    → ((d : ℕ) → d < base → Plain (digit d))
    → (ds : List ℕ) → All (λ d. d < base) ds
    → All Plain (map digit ds)
All-Plain base digit ok [] small = tt
All-Plain base digit ok (d ∷ ds) small = (ok d small.0, All-Plain base digit ok ds small.1)

pub dec_digit-Plain : (d : ℕ) → d < 10 → Plain (dec_digit d)
unfolding dec_digit
dec_digit-Plain d h = (λ e. omega (arith, e), λ e. omega (arith, e))

hex_digit-Plain : (d : ℕ) → d < 16 → Plain (hex_digit d)
unfolding hex_digit
hex_digit-Plain d h = ground arith

-- A text that stands in the buffer as a numeral with a zero behind it.
abbrev pub Stands : (base : ℕ) (digit : ℕ → ℕ) (n : ℕ) (b : ℕ → ℕ) (at : ℕ) → List ℕ → Type 0
Stands base digit n b at ds = Numeral base digit n ds × All Plain ds × Holds b at (ds ++ 0 ∷ [])

pub Printed-Stands :
    (base : ℕ) (digit : ℕ → ℕ) (n at : ℕ) (b b' : ℕ → ℕ)
    → ((d : ℕ) → d < base → Plain (digit d))
    → Printed base digit n at b b'
    → (ds : List ℕ) × Stands base digit n b' at ds
Printed-Stands base digit n at b b' ok r = (
  map digit r.digits,
  (
    inr (r.digits, refl, r.value, r.small, r.leading),
    All-Plain base digit ok r.digits r.small,
    r.holds,
  ),
)

zero_text :
    (base : ℕ) (digit : ℕ → ℕ) (b : ℕ → ℕ) (at : ℕ)
    → Stands base digit 0 (update (update b at 48) (at + 1) 0) at (48 ∷ [])
zero_text base digit b at = (
  inl (refl, refl),
  ((λ e. omega (arith, e), λ e. omega (arith, e)), tt),
  (
    update_other (update b at 48) (at + 1) at 0 (omega arith) ∙ update_self b at 48,
    (
      ap (update (update b at 48) (at + 1) 0) (omega arith)
          ∙ update_self (update b at 48) (at + 1) 0,
      tt,
    ),
  ),
)

pub itoa_printf-Stands :
    (b : ℕ → ℕ) (at n : ℕ)
    → n < 2 ^ 31
    → (ds : List ℕ) × Stands 10 dec_digit n (itoa_printf b at n) at ds
unfolding itoa_printf
itoa_printf-Stands b at zero small = (48 ∷ [], zero_text 10 dec_digit b at)
itoa_printf-Stands b at (suc n) small =
    Printed-Stands 10 dec_digit (suc n) at b (itoa_printf b at (suc n)) dec_digit-Plain
      (itoa_printf-Printed b at (suc n) (omega arith) small)

pub itoh_printf-Stands :
    (b : ℕ → ℕ) (at n : ℕ) → (ds : List ℕ) × Stands 16 hex_digit n (itoh_printf b at n) at ds
unfolding itoh_printf
itoh_printf-Stands b at zero = (48 ∷ [], zero_text 16 hex_digit b at)
itoh_printf-Stands b at (suc n) =
    Printed-Stands 16 hex_digit (suc n) at b (itoh_printf b at (suc n)) hex_digit-Plain
      (itoh_printf-Printed b at (suc n) (omega arith))
