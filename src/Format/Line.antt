-- ===== src/Format/Line.antt =====
-- The C library's `printf` on the format "%s\n".
use my_sbuos.Base.{
  ℕ, zero, suc, ◌+◌, ◌≤◌, ◌<◌, ◌≡◌, refl, ap, ◌∙◌, ◌≢◌, false, true, Option, none, some, List, [],
  ◌∷◌, arith, ◌==◌, ◌>>=◌, ne→==, length, update, update_self, Holds,
}
use my_sbuos.Text.Strings.{IsString, IsString-tail}
use my_sbuos.Console.{Console, write_k}
use my_sbuos.Syscall.{do_write, write_loop}
use my_sbuos.Syscall.Memory.{write_all}
use my_sbuos.Format.{write_chars, convert_user, Output, percent, takes_arg_user, printf_user}

-- "%s\n"
abbrev pub line_format : List ℕ
line_format = percent ∷ 115 ∷ 10 ∷ 0 ∷ []

-- One character other than 0 is written as it is.
do_write-one :
    (m : ℕ → ℕ) (at c : ℕ) (s : Console) → m at ≡ c → c ≢ 0 → (do_write m 1 at 1 s).1 ≡ write_k c s
unfolding do_write write_loop
do_write-one m at c s e nz =
    let here : m (at + 0) ≡ c = ap m (omega arith) ∙ e in
    let more : (c == 0) ≡ false = ne→== c 0 nz in rw (here, more) refl

write_chars-all :
    (f : ℕ) (m : ℕ → ℕ) (str : ℕ) (xs : List ℕ) (b : ℕ → ℕ) (printed : ℕ) (s : Console)
    → IsString m str xs
    → length xs < f
    → (b' : ℕ → ℕ) × (write_chars f m str b printed s
        ≡ some (b', printed + length xs, write_all xs s))
unfolding write_chars
write_chars-all zero m str xs b printed s h fuel = absurd (omega (arith, fuel))
write_chars-all (suc f) m str [] b printed s h fuel =
    (b, rw h.held.0 (ap (λ n. some (b, n, s)) (omega arith)))
write_chars-all (suc f) m str (x ∷ xs) b printed s h fuel =
    let more : (x == 0) ≡ false = ne→== x 0 h.bytes.0.0 in
    let one = do_write-one (update b 0 x) 0 x s (update_self b 0 x) h.bytes.0.0 in
    let r =
      write_chars-all f m (suc str) xs (update b 0 x) (suc printed) (write_k x s) (IsString-tail h)
        (omega (arith, fuel)) in
    (
      r.0,
      rw (h.held.0, more, one)
          (r.1 ∙ ap (λ n. some (r.0, n, write_all xs (write_k x s))) (omega arith)),
    )

-- One round, with the character of the format and the one behind it.
abbrev round : (f : ℕ) (m : ℕ → ℕ) (at : ℕ) (args : List ℕ) (o : Output) (c c' : ℕ) → Option Output
round f m at args o c c' = elim (c == 0) [
  | true ↦ some o
  | false ↦ elim (c == percent) [
    | false ↦
        printf_user f m (suc at) args
          (record o { printed = suc o.printed; console = (do_write m 1 at 1 o.console).1 })
    | true ↦ elim (takes_arg_user c') [
      | false ↦ printf_user f m (suc (suc at)) args o
      | true ↦ elim args [
        | [] ↦ none
        | arg ∷ rest ↦ convert_user f m c' arg o >>= λ o'. printf_user f m (suc (suc at)) rest o'
      ]
    ]
  ]
]

printf_user-round :
    (f : ℕ) (m : ℕ → ℕ) (at : ℕ) (args : List ℕ) (o : Output) (c c' : ℕ)
    → m at ≡ c
    → m (suc at) ≡ c'
    → printf_user (suc f) m at args o ≡ round f m at args o c c'
unfolding printf_user
printf_user-round f m at args o c c' e e' =
    ap (λ x. round f m at args o x (m (suc at))) e ∙ ap (round f m at args o c) e'

printf_user-end :
    (f : ℕ) (m : ℕ → ℕ) (at : ℕ) (args : List ℕ) (o : Output)
    → m at ≡ 0
    → printf_user (suc f) m at args o ≡ some o
printf_user-end f m at args o e = printf_user-round f m at args o 0 (m (suc at)) e refl

printf_user-newline :
    (f : ℕ) (m : ℕ → ℕ) (at : ℕ) (args : List ℕ) (o : Output)
    → m at ≡ 10
    → printf_user (suc f) m at args o
      ≡ printf_user f m
          (suc at)
          args
          (record o { printed = suc o.printed; console = write_k 10 o.console })
printf_user-newline f m at args o e =
    printf_user-round f m at args o 10 (m (suc at)) e refl
    ∙ ap
        (λ (c : Console).
          printf_user f m (suc at) args (record o { printed = suc o.printed; console = c }))
        (do_write-one m at 10 o.console e (omega arith))

printf_user-string :
    (f : ℕ) (m : ℕ → ℕ) (at p : ℕ) (o o' : Output)
    → m at ≡ percent
    → m (suc at) ≡ 115
    → convert_user f m 115 p o ≡ some o'
    → printf_user (suc f) m at (p ∷ []) o ≡ printf_user f m (suc (suc at)) [] o'
printf_user-string f m at p o o' e e' c =
    printf_user-round f m at (p ∷ []) o percent 115 e e'
    ∙ ap (λ (q : Option Output). q >>= λ o''. printf_user f m (suc (suc at)) [] o'') c

convert_user-string :
    (f : ℕ) (m : ℕ → ℕ) (p : ℕ) (xs : List ℕ) (o : Output)
    → IsString m p xs
    → length xs < f
    → (o' : Output) × (convert_user f m 115 p o ≡ some o') × (o'.console ≡ write_all xs o.console)
unfolding convert_user
convert_user-string f m p xs o h fuel =
    let r = write_chars-all f m p xs (update o.buffer 1 0) o.printed o.console h fuel in
    (
      record o { buffer = r.0; printed = o.printed + length xs; console = write_all xs o.console },
      rw r.1 refl,
      refl,
    )

-- The format prints the string and a newline, with fuel for three characters more than the string.
pub printf_user-line :
    (f : ℕ) (m : ℕ → ℕ) (format p : ℕ) (xs : List ℕ) (o : Output)
    → Holds m format line_format
    → IsString m p xs
    → length xs + 3 ≤ f
    → (o' : Output) × (printf_user f m format (p ∷ []) o ≡ some o')
      × (o'.console ≡ write_k 10 (write_all xs o.console))
printf_user-line zero m format p xs o h name fuel = absurd (omega (arith, fuel))
printf_user-line (suc zero) m format p xs o h name fuel = absurd (omega (arith, fuel))
printf_user-line (suc (suc zero)) m format p xs o h name fuel = absurd (omega (arith, fuel))
printf_user-line (suc (suc (suc f))) m format p xs o h name fuel =
    let r = convert_user-string (suc (suc f)) m p xs o name (omega (arith, fuel)) in
    let o' : Output = record (r.0) {
      printed = suc (r.0).printed;
      console = write_k 10 (r.0).console;
    } in
    (
      o',
      printf_user-string (suc (suc f)) m format p o r.0 h.0 h.1.0 r.1
          ∙ printf_user-newline (suc f) m (suc (suc format)) [] r.0 h.1.1.0
          ∙ printf_user-end f m (suc (suc (suc format))) [] o' h.1.1.1.0,
      ap (write_k 10) r.2,
    )
