-- ===== src/Prompt.antt =====
-- bin/sbush/sbushell.c: the prompt and the line that was read. The fuel of a loop is one round more than
-- it takes; `none` means that it is used up, or that no variable PS1 is set.
pub mod Fill
pub mod Expand
pub mod Format
mod Tests
use my_sbuos.Base.{
  ℕ, zero, suc, ◌+◌, ◌-◌, ◌*◌, ◌/◌, ◌%◌, ◌^◌, ◌≤◌, ◌<◌, ◌≡◌, refl, sym, ap, ap₂, ◌∙◌, ◌≢◌, ◌⊎◌, inl,
  inr, Bool, true, false, not, ◌&&◌, ◌||◌, Option, none, some, List, [], ◌∷◌, ◌++◌, map, append-nil,
  append_assoc, arith, ltb, leb, ◌==◌, if◌then◌else◌, Bool-cases, Option-cases, ◌>>=◌, ltb→lt,
  lt→ltb, leb→le, eq→==, ne→==, ==_iff, length, get_or, length-append, All, All-append, NotIn,
  Distinct, NotIn-append, Distinct-snoc, mem, NotIn-of_mem, mem_of_NotIn, mem-append, update,
  update_self, update_other, Holds, Holds-agree, Holds-append, Holds-append_left,
  Holds-append_right, subst,
}
use my_sbuos.Shell.{rounds, strlen, strsearch}
use my_sbuos.Environment.{Environment, Literals, value_of}

-- The addresses of the globals.
pub record Buffers : Type 0 where
  pub prompt : ℕ
  pub cwd : ℕ
  pub status_str : ℕ
  pub user_name_str : ℕ

-- `for(int i=0; i<strlen(format_with); i++)`: the buffer index and the memory.
pub copy_format :
    (f : ℕ) → Buffers → (format_with i buffer_index : ℕ) → (ℕ → ℕ) → Option (ℕ × (ℕ → ℕ))
copy_format zero a format_with i buffer_index m = none
copy_format (suc f) a format_with i buffer_index m =
    let rest =
      copy_format f a format_with (suc i) (suc buffer_index)
        (update m (a.prompt + buffer_index) (m (format_with + i))) in
    if ltb i (rounds (strlen m format_with)) then rest else some (buffer_index, m)

-- The text that the letter behind a backslash stands for.
abbrev pub format_with : Buffers → (c : ℕ) → Option ℕ
format_with a c =
    if c == 117
    then some a.user_name_str
    else if c == 100
    then some a.cwd
    else if c == 83
    then some a.status_str
    else none

-- The text to insert at a place of the format, if a backslash and such a letter stand there.
abbrev pub insert_at : Buffers → (m : ℕ → ℕ) (p : ℕ) → Option ℕ
insert_at a m p = if m p == 92 then format_with a (m (suc p)) else none

pub prompt_loop :
    (f : ℕ) → Buffers → (ps1 format_index buffer_index : ℕ) → (ℕ → ℕ) → Option (ℕ × (ℕ → ℕ))
prompt_loop zero a ps1 format_index buffer_index m = none
prompt_loop (suc f) a ps1 format_index buffer_index m =
    elim (ltb format_index (rounds (strlen m ps1))) [
      | false ↦ some (buffer_index, m)
      | true ↦ elim (insert_at a m (ps1 + format_index)) [
        | none ↦
            prompt_loop f a ps1 (suc format_index) (suc buffer_index)
              (update m (a.prompt + buffer_index) (m (ps1 + format_index)))
        | some w ↦ copy_format f a w 0 buffer_index m >>= λ r.
            prompt_loop f a ps1 (suc (suc format_index)) r.0 r.1
      ]
    ]

pub get_formatted_prompt : (f : ℕ) → Literals → Buffers → Environment → Option Environment
get_formatted_prompt f t a s = value_of f t.ps1 s >>= λ ps1.
    prompt_loop f a ps1 0 0 s.memory >>= λ r.
    some (record s { memory = update r.1 (a.prompt + r.0) 0 })

-- The line feed becomes the end of the line; -1 when there is none.
pub process_command : (command : ℕ) → (ℕ → ℕ) → ℕ × (ℕ → ℕ)
process_command command m =
    let newlind = strsearch m command 10 in
    if ltb newlind (2 ^ 31) then (0, update m (command + newlind) 0) else (2 ^ 32 - 1, m)
