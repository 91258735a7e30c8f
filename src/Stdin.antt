-- ===== src/Stdin.antt =====
-- sys/stdin.c: the circular buffer of typed characters. An `int` is its bit pattern below 2 ^ 32,
-- and `buffer` is the memory round `_stdin_buffer` by such an index.
pub mod Ring
pub mod Copy
mod Tests
use my_sbuos.Base.{
  ℕ, zero, suc, ◌+◌, ◌-◌, ◌*◌, ◌/◌, ◌%◌, ◌^◌, ◌≤◌, ◌<◌, ◌≡◌, refl, sym, ap, ap₂, ◌∙◌, ◌≢◌, ◌⊎◌, inl,
  inr, Bool, true, false, not, ◌&&◌, ◌||◌, Option, none, some, List, [], ◌∷◌, ◌++◌, map, append-nil,
  append_assoc, arith, ltb, leb, ◌==◌, if◌then◌else◌, Bool-cases, Option-cases, ltb→lt, lt→ltb,
  leb→le, eq→==, ne→==, ==_iff, length, get_or, length-append, All, All-append, NotIn, Distinct,
  NotIn-append, Distinct-snoc, mem, NotIn-of_mem, mem_of_NotIn, mem-append, update, update_self,
  update_other, Holds, Holds-agree, Holds-append, Holds-append_left, Holds-append_right, subst,
}
use my_sbuos.Process.{Kernel, notify_stdin}

abbrev pub stdin_buffer_size : ℕ
stdin_buffer_size = 256

abbrev pub backspace : ℕ
backspace = 8

abbrev pub newline : ℕ
newline = 10

-- `'D'-64`
abbrev pub ctrl_d : ℕ
ctrl_d = 4

-- `%` on `int` rounds towards zero, so that a negative number leaves a negative rest.
abbrev pub rem_int : ℕ → ℕ → ℕ
rem_int a m = if ltb a (2 ^ 31) then a % m else (2 ^ 32 - (2 ^ 32 - a) % m) % 2 ^ 32

pub record Stdin : Type 0 where
  pub buffer : ℕ → ℕ
  pub start_point : ℕ
  pub end_point : ℕ
  pub input_count : ℕ

abbrev pub next_point : ℕ → ℕ
next_point i = rem_int ((i + 1) % 2 ^ 32) stdin_buffer_size

-- The result says whether the character is to be shown. `none`: `notify_stdin` does not end.
pub add_char : ℕ → Stdin → Kernel → Option (ℕ × Stdin × Kernel)
add_char c s k =
    let put = record s {
      buffer = update s.buffer s.end_point c;
      end_point = next_point s.end_point;
    } in
    let counted = record put { input_count = (s.input_count + 1) % 2 ^ 32 } in
    if next_point s.end_point == s.start_point
    then some (1, s, k)
    else if (c == backspace) && (s.end_point == s.start_point)
    then some (0, s, k)
    else if c == backspace
    then some (
      1,
      record s { end_point = rem_int ((s.end_point + (2 ^ 32 - 1)) % 2 ^ 32) stdin_buffer_size },
      k,
    )
    else if (c == newline) || (c == ctrl_d)
    then elim (notify_stdin k) [ none ↦ none | some k' ↦ some (1, counted, k') ]
    else some (1, put, k)

pub buffer_is_ready : Stdin → Bool
buffer_is_ready s = ltb 0 s.input_count && ltb s.input_count (2 ^ 31)

-- The loop of `copy_input` from the index `i` on, and what follows it; `out` is the memory from
-- the caller's buffer on. `none`: no newline was met within the fuel.
pub copy_loop : ℕ → (size i : ℕ) → (ℕ → ℕ) → Stdin → Option (ℕ × (ℕ → ℕ) × Stdin)
copy_loop zero size i out s = none
copy_loop (suc f) size i out s =
    let c = s.buffer s.start_point in
    let s' = record s { start_point = next_point s.start_point } in
    let rest = copy_loop f size (suc i) (update out i c) s' in
    if c == newline
    then some (
      (i + 1) % 2 ^ 32,
      update (update out i newline) (suc i) 0,
      record s' { input_count = (s.input_count + (2 ^ 32 - 1)) % 2 ^ 32 },
    )
    else if i == (size + (2 ^ 32 - 1)) % 2 ^ 32
    then some (size, update (update out i c) i 0, s')
    else rest

pub copy_input : ℕ → (size : ℕ) → (ℕ → ℕ) → Stdin → Option (ℕ × (ℕ → ℕ) × Stdin)
copy_input fuel size out s =
    if s.buffer s.start_point == ctrl_d
    then some (
      0,
      out,
      record s {
        start_point = (s.start_point + 1) % 2 ^ 32;
        input_count = (s.input_count + (2 ^ 32 - 1)) % 2 ^ 32;
      },
    )
    else copy_loop fuel size 0 out s
