-- ===== src/Format.antt =====
-- The `printf` of the kernel (sys/unix_helpers.c) and of the C library (libc/printf.c). The format and
-- the strings stand in the memory `m`, `_buffer` is the array `b`, and the variable arguments are a list
-- of patterns below 2 ^ 64. `none`: the fuel is used up, or an argument is missing.
pub mod Plain
pub mod Pieces
pub mod Line
mod Tests
use my_sbuos.Base.{
  ℕ, zero, suc, ◌+◌, ◌-◌, ◌*◌, ◌/◌, ◌%◌, ◌^◌, ◌≤◌, ◌<◌, ◌≡◌, refl, sym, ap, ap₂, ◌∙◌, ◌≢◌, ◌⊎◌, inl,
  inr, Bool, true, false, not, ◌&&◌, ◌||◌, Option, none, some, List, [], ◌∷◌, ◌++◌, map, append-nil,
  append_assoc, arith, ltb, leb, ◌==◌, if◌then◌else◌, Bool-cases, Option-cases, ◌>>=◌, ltb→lt,
  lt→ltb, leb→le, eq→==, ne→==, ==_iff, length, get_or, length-append, All, All-append, NotIn,
  Distinct, NotIn-append, Distinct-snoc, mem, NotIn-of_mem, mem_of_NotIn, mem-append, update,
  update_self, update_other, Holds, Holds-agree, Holds-append, Holds-append_left,
  Holds-append_right, subst,
}
use my_sbuos.Console.{Console, write_k}
use my_sbuos.Console.Numbers.{itoa_printf, itoh_printf}
use my_sbuos.Syscall.{do_write}

abbrev pub percent : ℕ
percent = 37

-- `-number` of a negative `int`, widened to 64 bits.
pub negated : ℕ → ℕ
negated number = if number == 2 ^ 31 then 2 ^ 64 - 2 ^ 31 else 2 ^ 32 - number

-- The text of `%d` at `at` in the buffer.
pub put_int : (b : ℕ → ℕ) (at arg : ℕ) → ℕ → ℕ
put_int b at arg =
    let number = arg % 2 ^ 32 in
    if leb (2 ^ 31) number
    then itoa_printf (update b at 45) (at + 1) (negated number)
    else itoa_printf b at number

-- `while (*strTemp != '\0')` of the kernel: the buffer's first place holds the last character.
pub write_string :
    (f : ℕ) → (m : ℕ → ℕ) (str : ℕ) (b : ℕ → ℕ) → Console → Option ((ℕ → ℕ) × Console)
write_string zero m str b s = none
write_string (suc f) m str b s =
    let rest = write_string f m (suc str) (update b 0 (m str)) (write_k (m str) s) in
    if m str == 0 then some (b, s) else rest

-- One conversion: the arguments left, the buffer and the console. `print` is `printf` on the buffer.
pub convert :
    (print : (ℕ → ℕ) → Console → Option ((ℕ → ℕ) × Console)) (f : ℕ) (m : ℕ → ℕ) (c arg : ℕ)
    (b : ℕ → ℕ)
    → Console
    → Option ((ℕ → ℕ) × Console)
convert print f m c arg b s =
    if c == 99
    then some (update (update b 0 (arg % 256)) 1 0, write_k (arg % 256) s)
    else if c == 100
    then print (put_int b 0 arg) s
    else if c == 115
    then write_string f m arg (update b 1 0) s
    else print (itoh_printf b 0 arg) s

-- Whether the letter takes an argument: c, d, s, x or p.
abbrev pub takes_arg : ℕ → Bool
takes_arg c = (c == 99) || ((c == 100) || ((c == 115) || ((c == 120) || (c == 112))))

pub printf :
    (f : ℕ)
    → (m : ℕ → ℕ) (fmt : ℕ) (args : List ℕ) (b : ℕ → ℕ) → Console
    → Option ((ℕ → ℕ) × Console)
printf zero m fmt args b s = none
printf (suc f) m fmt args b s = elim (m fmt == 0) [
  | true ↦ some (b, s)
  | false ↦ elim (m fmt == percent) [
    | false ↦ printf f m (suc fmt) args b (write_k (m fmt) s)
    | true ↦ elim (takes_arg (m (suc fmt))) [
      | false ↦ printf f m (suc (suc fmt)) args b s
      | true ↦ elim args [
        | [] ↦ none
        | arg ∷ rest ↦ convert (λ b' s'. printf f b' 0 [] b' s') f m (m (suc fmt)) arg b s >>= λ r.
            printf f m (suc (suc fmt)) rest r.0 r.1
      ]
    ]
  ]
]

-- `while (*strArray)` of the C library: the place behind the text, the number printed and the console.
pub write_buffer : (f : ℕ) → (b : ℕ → ℕ) (at printed : ℕ) → Console → Option (ℕ × ℕ × Console)
write_buffer zero b at printed s = none
write_buffer (suc f) b at printed s =
    let rest = write_buffer f b (suc at) (suc printed) (do_write b 1 at 1 s).1 in
    if b at == 0 then some (at, printed, s) else rest

pub write_chars :
    (f : ℕ)
    → (m : ℕ → ℕ) (str : ℕ) (b : ℕ → ℕ) (printed : ℕ) → Console
    → Option ((ℕ → ℕ) × ℕ × Console)
write_chars zero m str b printed s = none
write_chars (suc f) m str b printed s =
    let b' = update b 0 (m str) in
    let rest = write_chars f m (suc str) b' (suc printed) (do_write b' 1 0 1 s).1 in
    if m str == 0 then some (b, printed, s) else rest

-- The buffer, the place of `strArray`, the number printed and the console.
pub record Output : Type 0 where
  pub buffer : ℕ → ℕ
  pub str_array : ℕ
  pub printed : ℕ
  pub console : Console

-- An `int` widened to 64 bits.
pub widen : ℕ → ℕ
widen n = if leb (2 ^ 31) n then n + (2 ^ 64 - 2 ^ 32) else n

pub convert_user : (f : ℕ) → (m : ℕ → ℕ) (c arg : ℕ) → Output → Option Output
convert_user f m c arg o =
    if c == 99
    then (let b = update (update o.buffer 0 (arg % 256)) 1 0 in
        some (record o {
          buffer = b;
          printed = suc o.printed;
          console = (do_write b 1 0 1 o.console).1;
        }))
    else if c == 115
    then (write_chars f m arg (update o.buffer 1 0) o.printed o.console >>= λ r.
        some (record o { buffer = r.0; printed = r.1; console = r.2 }))
    else (let b =
          if c == 100
          then put_int o.buffer o.str_array arg
          else itoh_printf o.buffer o.str_array (widen (arg % 2 ^ 32)) in
        write_buffer f b o.str_array o.printed o.console >>= λ r.
        some (record { buffer = b; str_array = r.0; printed = r.1; console = r.2 }))

-- The conversions of the C library: c, d, s and x.
abbrev pub takes_arg_user : ℕ → Bool
takes_arg_user c = (c == 99) || ((c == 100) || ((c == 115) || (c == 120)))

unfoldable pub printf_user :
    (f : ℕ) → (m : ℕ → ℕ) (format : ℕ) (args : List ℕ) → Output → Option Output
printf_user zero m format args o = none
printf_user (suc f) m format args o = elim (m format == 0) [
  | true ↦ some o
  | false ↦ elim (m format == percent) [
    | false ↦
        printf_user f m (suc format) args
          (record o { printed = suc o.printed; console = (do_write m 1 format 1 o.console).1 })
    | true ↦ elim (takes_arg_user (m (suc format))) [
      | false ↦ printf_user f m (suc (suc format)) args o
      | true ↦ elim args [
        | [] ↦ none
        | arg ∷ rest ↦ convert_user f m (m (suc format)) arg o >>= λ o'.
            printf_user f m (suc (suc format)) rest o'
      ]
    ]
  ]
]
