-- ===== src/Format/Pieces.antt =====
-- The pieces that `printf` of sys/unix_helpers.c prints one after the other.
use my_sbuos.Base.{
  ℕ, zero, suc, ◌+◌, ◌-◌, ◌%◌, ◌^◌, ◌≤◌, ◌<◌, ◌≡◌, refl, sym, ap, ◌∙◌, ◌≢◌, inl, true, false, some,
  List, [], ◌∷◌, ◌++◌, arith, leb, ◌==◌, length, All, update, update_self, Holds,
}
use my_sbuos.Text.Strings.{IsString}
use my_sbuos.Console.{Console, write_k}
use my_sbuos.Console.Numbers.{dec_digit, hex_digit, itoa_printf, itoh_printf}
use my_sbuos.Console.Numbers.Digits.{itoa_printf-Printed}
use my_sbuos.Syscall.Memory.{write_all}
use my_sbuos.Format.{percent, negated, put_int, convert, takes_arg, printf}
use my_sbuos.Format.Plain.{
  Plain, printf-letter, printf-end, printf-convert, printf-Plain, put_all, write_string-write_all,
  Numeral, dec_digit-Plain, Stands, Printed-Stands, itoa_printf-Stands, itoh_printf-Stands,
}

-- A piece of a format with its argument: a character of its own, `%c`, `%s` with the string at an
-- address, `%d` of a number and of a negated one, `%x`.
pub data Piece : Type 0 where
  plain : ℕ → Piece
  char : ℕ → Piece
  string : ℕ → List ℕ → Piece
  decimal : ℕ → Piece
  negative : ℕ → Piece
  hex : ℕ → Piece

abbrev pub format_of : Piece → List ℕ
format_of (plain c) = c ∷ []
format_of (char arg) = percent ∷ 99 ∷ []
format_of (string arg text) = percent ∷ 115 ∷ []
format_of (decimal n) = percent ∷ 100 ∷ []
format_of (negative n) = percent ∷ 100 ∷ []
format_of (hex n) = percent ∷ 120 ∷ []

abbrev pub args_of : Piece → List ℕ
args_of (plain c) = []
args_of (char arg) = arg ∷ []
args_of (string arg text) = arg ∷ []
args_of (decimal n) = n ∷ []
args_of (negative n) = (2 ^ 32 - n) ∷ []
args_of (hex n) = n ∷ []

abbrev pub Fits : (m : ℕ → ℕ) → Piece → Type 0
Fits m (plain c) = (c ≢ 0) × (c ≢ percent)
Fits m (char arg) = Unit {0}
Fits m (string arg text) = IsString m arg text
Fits m (decimal n) = n < 2 ^ 31
Fits m (negative n) = (0 < n) × (n < 2 ^ 31)
Fits m (hex n) = Unit {0}

-- The text of a piece.
abbrev pub Says : Piece → List ℕ → Type 0
Says (plain c) out = out ≡ c ∷ []
Says (char arg) out = out ≡ arg % 256 ∷ []
Says (string arg text) out = out ≡ text
Says (decimal n) out = Numeral 10 dec_digit n out
Says (negative n) out = (ds : List ℕ) × (out ≡ 45 ∷ ds) × Numeral 10 dec_digit n ds
Says (hex n) out = Numeral 16 hex_digit n out

-- The texts of the pieces, one after the other.
abbrev pub AllSay : List Piece → List ℕ → Type 0
AllSay [] out = out ≡ []
AllSay (p ∷ ps) out = (xs : List ℕ) × (ys : List ℕ) × (out ≡ xs ++ ys) × Says p xs × AllSay ps ys

abbrev pub format : List Piece → List ℕ
format [] = 0 ∷ []
format (p ∷ ps) = format_of p ++ format ps

abbrev pub args : List Piece → List ℕ
args [] = []
args (p ∷ ps) = args_of p ++ args ps

-- From some fuel on `printf` of the pieces writes `out` and the pieces' texts.
abbrev pub Prints : (p : ℕ) (ps : List Piece) (m b : ℕ → ℕ) (s : Console) → List ℕ → Type 0
Prints p ps m b s out =
    (fuel : ℕ) × (b' : ℕ → ℕ) × ((f : ℕ)
      → fuel ≤ f
      → printf f m p (args ps) b s ≡ some (b', write_all out s))

-- From some fuel on a conversion writes `out`.
abbrev Converts : (m : ℕ → ℕ) (c arg : ℕ) (b : ℕ → ℕ) (s : Console) → List ℕ → Type 0
Converts m c arg b s out =
    (fuel : ℕ) × (b' : ℕ → ℕ) × ((f : ℕ)
      → fuel ≤ f
      → convert (λ b₁ s₁. printf f b₁ 0 [] b₁ s₁) f m c arg b s ≡ some (b', write_all out s))

write_all-append :
    (xs ys : List ℕ) (s : Console) → write_all (xs ++ ys) s ≡ write_all ys (write_all xs s)
write_all-append [] ys s = refl
write_all-append (x ∷ xs) ys s = write_all-append xs ys (write_k x s)

-- a numeral in the buffer, printed
print_numeral :
    (base : ℕ) (digit : ℕ → ℕ) (n : ℕ) (b : ℕ → ℕ) (at : ℕ) (ds : List ℕ) (f : ℕ) (s : Console)
    → Stands base digit n b at ds
    → length ds < f
    → printf f b at [] b s ≡ some (b, write_all ds s)
print_numeral base digit n b at ds f s h fuel = printf-Plain f b at ds b s h.1 h.2 fuel

char-Converts :
    (m : ℕ → ℕ) (arg : ℕ) (b : ℕ → ℕ) (s : Console) → Converts m 99 arg b s (arg % 256 ∷ [])
unfolding convert
char-Converts m arg b s = (0, update (update b 0 (arg % 256)) 1 0, λ f h. refl)

string-Converts :
    (m : ℕ → ℕ) (arg : ℕ) (text : List ℕ) (b : ℕ → ℕ) (s : Console)
    → IsString m arg text
    → Converts m 115 arg b s text
unfolding convert
string-Converts m arg text b s h = (
  suc (length text),
  put_all (update b 1 0) text,
  λ f le. write_string-write_all f m arg text (update b 1 0) s h (omega (arith, le)),
)

hex-Converts :
    (m : ℕ → ℕ) (n : ℕ) (b : ℕ → ℕ) (s : Console)
    → (ds : List ℕ) × Numeral 16 hex_digit n ds × Converts m 120 n b s ds
unfolding convert
hex-Converts m n b s =
    let h = itoh_printf-Stands b 0 n in
    (
      h.0,
      h.1.0,
      (
        suc (length h.0),
        itoh_printf b 0 n,
        λ f le. print_numeral 16 hex_digit n (itoh_printf b 0 n) 0 h.0 f s h.1 (omega (arith, le)),
      ),
    )

decimal-Converts :
    (m : ℕ → ℕ) (n : ℕ) (b : ℕ → ℕ) (s : Console)
    → n < 2 ^ 31
    → (ds : List ℕ) × Numeral 10 dec_digit n ds × Converts m 100 n b s ds
unfolding convert put_int
decimal-Converts m n b s small =
    let h = itoa_printf-Stands b 0 n small in
    let same : n % 2 ^ 32 ≡ n = omega arith in
    let positive : leb (2 ^ 31) n ≡ false = ground arith in
    (
      h.0,
      h.1.0,
      (
        suc (length h.0),
        itoa_printf b 0 n,
        λ f le.
            rw (same, positive)
              (print_numeral 10 dec_digit n (itoa_printf b 0 n) 0 h.0 f s h.1 (omega (arith, le))),
      ),
    )

negative-Converts :
    (m : ℕ → ℕ) (n : ℕ) (b : ℕ → ℕ) (s : Console)
    → 0 < n
    → n < 2 ^ 31
    → (ds : List ℕ) × Numeral 10 dec_digit n ds × Converts m 100 (2 ^ 32 - n) b s (45 ∷ ds)
unfolding convert put_int negated
negative-Converts m n b s pos small =
    let signed = update b 0 45 in
    let done = itoa_printf signed 1 n in
    let printed = itoa_printf-Printed signed 1 n pos small in
    let h = Printed-Stands 10 dec_digit n 1 signed done dec_digit-Plain printed in
    let sign : done 0 ≡ 45 = printed.others 0 (inl (omega arith)) ∙ update_self b 0 45 in
    let same : (2 ^ 32 - n) % 2 ^ 32 ≡ 2 ^ 32 - n = omega arith in
    let below : leb (2 ^ 31) (2 ^ 32 - n) ≡ true = ground arith in
    let inside : (2 ^ 32 - n == 2 ^ 31) ≡ false = ground arith in
    let back : 2 ^ 32 - (2 ^ 32 - n) ≡ n = omega arith in
    let minus : Plain 45 = (λ e. omega (arith, e), λ e. omega (arith, e)) in
    (
      h.0,
      h.1.0,
      (
        suc (suc (length h.0)),
        done,
        λ f le.
            rw (same, below, inside, back)
              (printf-Plain f done 0 (45 ∷ h.0) done s (minus, h.1.1) (sign, h.1.2)
                (omega (arith, le))),
      ),
    )

-- a conversion in front
convert_before :
    (p c arg : ℕ) (ps : List Piece) (m b : ℕ → ℕ) (s : Console) (xs ys : List ℕ)
    → m p ≡ percent
    → m (suc p) ≡ c
    → takes_arg c ≡ true
    → (r : Converts m c arg b s xs) → Prints (suc (suc p)) ps m r.1 (write_all xs s) ys
    → (fuel : ℕ) × (b' : ℕ → ℕ) × ((f : ℕ)
        → fuel ≤ f
        → printf f m p (arg ∷ args ps) b s ≡ some (b', write_all (xs ++ ys) s))
convert_before p c arg ps m b s xs ys here there takes r q = (
  suc (r.0 + q.0),
  q.1,
  λ f le.
      elim f
          as (λ f.
            suc (r.0 + q.0) ≤ f
            → printf f m p (arg ∷ args ps) b s ≡ some (q.1, write_all (xs ++ ys) s)) [
              | zero ↦ λ le'. absurd (omega (arith, le'))
              | suc g ↦ λ le'.
                  printf-convert g m p c arg (args ps) b r.1 s (write_all xs s) here there takes
                    (r.2 g (omega (arith, le')))
                  ∙ q.2 g (omega (arith, le'))
                  ∙ ap (λ (t : Console). some (q.1, t)) (sym (write_all-append xs ys s))
            ]
        le,
)

-- `printf` of a format prints the pieces in order: the characters of its own, for `%c` the
-- argument's low byte, for `%s` the string at the address, for `%d` and `%x` the number's digits without
-- leading zeros. From some fuel on it ends with this result.
pub printf-AllSay :
    (ps : List Piece) (m : ℕ → ℕ) (fmt : ℕ) (b : ℕ → ℕ) (s : Console)
    → All (Fits m) ps
    → Holds m fmt (format ps)
    → (out : List ℕ) × AllSay ps out × Prints fmt ps m b s out
printf-AllSay [] m fmt b s fits h = (
  [],
  refl,
  (
    1,
    b,
    λ f le.
        elim f as (λ f. 1 ≤ f → printf f m fmt [] b s ≡ some (b, s)) [
          | zero ↦ λ le'. absurd (omega (arith, le'))
          | suc g ↦ λ le'. printf-end g m fmt [] b s h.0
        ]
          le,
  ),
)
printf-AllSay (plain c ∷ ps) m fmt b s fits h =
    let r = printf-AllSay ps m (suc fmt) b (write_k c s) fits.1 h.1 in
    let q = r.2 in
    (
      c ∷ r.0,
      (c ∷ [], r.0, refl, refl, r.1),
      (
        suc q.0,
        q.1,
        λ f le.
            elim f
                as (λ f.
                  suc q.0 ≤ f
                  → printf f m fmt (args ps) b s ≡ some (q.1, write_all r.0 (write_k c s))) [
                    | zero ↦ λ le'. absurd (omega (arith, le'))
                    | suc g ↦ λ le'.
                        printf-letter g m fmt c (args ps) b s h.0 fits.0
                        ∙ q.2 g (omega (arith, le'))
                  ]
              le,
      ),
    )
printf-AllSay (char arg ∷ ps) m fmt b s fits h =
    let xs = arg % 256 ∷ [] in
    let c = char-Converts m arg b s in
    let r = printf-AllSay ps m (suc (suc fmt)) c.1 (write_all xs s) fits.1 h.1.1 in
    (
      xs ++ r.0,
      (xs, r.0, refl, refl, r.1),
      convert_before fmt 99 arg ps m b s xs r.0 h.0 h.1.0 refl c r.2,
    )
printf-AllSay (string arg text ∷ ps) m fmt b s fits h =
    let c = string-Converts m arg text b s fits.0 in
    let r = printf-AllSay ps m (suc (suc fmt)) c.1 (write_all text s) fits.1 h.1.1 in
    (
      text ++ r.0,
      (text, r.0, refl, refl, r.1),
      convert_before fmt 115 arg ps m b s text r.0 h.0 h.1.0 refl c r.2,
    )
printf-AllSay (decimal n ∷ ps) m fmt b s fits h =
    let c = decimal-Converts m n b s fits.0 in
    let r = printf-AllSay ps m (suc (suc fmt)) c.2.1 (write_all c.0 s) fits.1 h.1.1 in
    (
      c.0 ++ r.0,
      (c.0, r.0, refl, c.1, r.1),
      convert_before fmt 100 n ps m b s c.0 r.0 h.0 h.1.0 refl c.2 r.2,
    )
printf-AllSay (negative n ∷ ps) m fmt b s fits h =
    let c = negative-Converts m n b s fits.0.0 fits.0.1 in
    let r = printf-AllSay ps m (suc (suc fmt)) c.2.1 (write_all (45 ∷ c.0) s) fits.1 h.1.1 in
    (
      (45 ∷ c.0) ++ r.0,
      ((45 ∷ c.0), r.0, refl, (c.0, refl, c.1), r.1),
      convert_before fmt 100 (2 ^ 32 - n) ps m b s (45 ∷ c.0) r.0 h.0 h.1.0 refl c.2 r.2,
    )
printf-AllSay (hex n ∷ ps) m fmt b s fits h =
    let c = hex-Converts m n b s in
    let r = printf-AllSay ps m (suc (suc fmt)) c.2.1 (write_all c.0 s) fits.1 h.1.1 in
    (
      c.0 ++ r.0,
      (c.0, r.0, refl, c.1, r.1),
      convert_before fmt 120 n ps m b s c.0 r.0 h.0 h.1.0 refl c.2 r.2,
    )
