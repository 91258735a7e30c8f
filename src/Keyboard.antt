-- ===== src/Keyboard.antt =====
-- sys/keyboard_helpers.c and the keyboard side of sys/stdin.c: bytes from the keyboard become
-- characters. Both drivers go through the same states; `shift` and `ctrl` are 0 or -1 in the source
-- and a Bool here. The tables end with the zero of their literal: a read behind it is outside of
-- the object, and `none`.
pub mod Feed
pub mod Echo
pub mod Glyph
mod Tests
use my_sbuos.Base.{
  ℕ, zero, suc, ◌+◌, ◌-◌, ◌*◌, ◌/◌, ◌%◌, ◌^◌, ◌≤◌, ◌<◌, ◌≡◌, refl, sym, ap, ap₂, ◌∙◌, ◌≢◌, ◌⊎◌, inl,
  inr, Bool, true, false, not, ◌&&◌, ◌||◌, Option, none, some, List, [], ◌∷◌, ◌++◌, map, append-nil,
  append_assoc, arith, ltb, leb, ◌==◌, if◌then◌else◌, Bool-cases, Option-cases, ◌>>=◌, ltb→lt,
  lt→ltb, leb→le, eq→==, ne→==, ==_iff, length, get_or, length-append, All, All-append, NotIn,
  Distinct, NotIn-append, Distinct-snoc, mem, NotIn-of_mem, mem_of_NotIn, mem-append, update,
  update_self, update_other, Holds, Holds-agree, Holds-append, Holds-append_left,
  Holds-append_right, subst,
}
use my_sbuos.Process.{Kernel}
use my_sbuos.Stdin.{Stdin, add_char}
use my_sbuos.Console.{Console, write_k}

pub data KeyState : Type 0 where
  s_input s_need_1 s_need_2 s_finished : KeyState

pub record Keys : Type 0 where
  pub state : KeyState
  pub pressed_key : ℕ
  pub shift : Bool
  pub ctrl : Bool

abbrev pub initial : Keys
initial = record { state = s_input; pressed_key = 0; shift = false; ctrl = false }

abbrev pub k_shiftdown : ℕ
k_shiftdown = 42

abbrev pub k_ctrldown : ℕ
k_ctrldown = 29

abbrev pub smalls : List ℕ
smalls =
    32 ∷ 96 ∷ 49 ∷ 50 ∷ 51 ∷ 52 ∷ 53 ∷ 54 ∷ 55 ∷ 56 ∷ 57 ∷ 48 ∷ 45 ∷ 61 ∷ 32 ∷ 32 ∷ 113 ∷ 119 ∷ 101
    ∷ 114 ∷ 116 ∷ 121 ∷ 117 ∷ 105 ∷ 111 ∷ 112 ∷ 91 ∷ 93 ∷ 92 ∷ 32 ∷ 97 ∷ 115 ∷ 100 ∷ 102 ∷ 103 ∷ 104
    ∷ 106 ∷ 107 ∷ 108 ∷ 59 ∷ 39 ∷ 32 ∷ 32 ∷ 32 ∷ 122 ∷ 120 ∷ 99 ∷ 118 ∷ 98 ∷ 110 ∷ 109 ∷ 44 ∷ 46
    ∷ 47 ∷ 32 ∷ 32 ∷ 32 ∷ 32 ∷ 32 ∷ 0 ∷ []

abbrev pub capitals : List ℕ
capitals =
    32 ∷ 126 ∷ 33 ∷ 64 ∷ 35 ∷ 36 ∷ 37 ∷ 94 ∷ 38 ∷ 42 ∷ 40 ∷ 41 ∷ 95 ∷ 43 ∷ 32 ∷ 32 ∷ 81 ∷ 87 ∷ 69
    ∷ 82 ∷ 84 ∷ 89 ∷ 85 ∷ 73 ∷ 79 ∷ 80 ∷ 123 ∷ 125 ∷ 124 ∷ 32 ∷ 65 ∷ 83 ∷ 68 ∷ 70 ∷ 71 ∷ 72 ∷ 74
    ∷ 75 ∷ 76 ∷ 58 ∷ 34 ∷ 32 ∷ 32 ∷ 32 ∷ 90 ∷ 88 ∷ 67 ∷ 86 ∷ 66 ∷ 78 ∷ 77 ∷ 60 ∷ 62 ∷ 63 ∷ 32 ∷ 32
    ∷ 32 ∷ 32 ∷ 32 ∷ 0 ∷ []

abbrev pub get_elem? : List ℕ → ℕ → Option ℕ
get_elem? [] i = none
get_elem? (c ∷ cs) zero = some c
get_elem? (c ∷ cs) (suc i) = get_elem? cs i

-- The first half of both drivers: the state after the byte.
unfoldable pub press : ℕ → Keys → Keys
press key s = elim s.state [
  | s_need_1 ↦ record s { state = s_finished }
  | s_need_2 ↦ record s { state = s_need_1 }
  | s_input ↦
      if key == k_ctrldown
      then record s { ctrl = true }
      else if key == k_shiftdown
      then record s { shift = true }
      else record s { pressed_key = key; state = if s.ctrl || s.shift then s_need_2 else s_need_1 }
  | s_finished ↦ s
]

abbrev pub key_is_up : KeyState → Bool
key_is_up s_finished = true
key_is_up _ = false

-- The four characters of the status line.
unfoldable pub print_glyph : Keys → Option (List ℕ)
print_glyph s =
    if s.pressed_key == 1
    then some (69 ∷ 83 ∷ 67 ∷ 32 ∷ [])
    else if s.pressed_key == 14
    then some (32 ∷ 92 ∷ 66 ∷ 32 ∷ [])
    else if s.pressed_key == 15
    then some (32 ∷ 92 ∷ 84 ∷ 32 ∷ [])
    else if s.pressed_key == 28
    then some (32 ∷ 92 ∷ 78 ∷ 32 ∷ [])
    else (get_elem? (if s.shift || s.ctrl then capitals else smalls) s.pressed_key >>= λ c.
        some (32 ∷ (if s.ctrl then 94 else 32) ∷ c ∷ 32 ∷ []))

-- The number returned, the state and the characters, which change only when it is 1.
unfoldable pub keyboard_feed : ℕ → Keys → List ℕ → Option (ℕ × Keys × List ℕ)
keyboard_feed key s buff =
    let s' = press key s in
    if key_is_up s'.state
    then (print_glyph s' >>= λ b. some (1, initial, b))
    else some (0, s', buff)

-- The character before control is taken into account.
pub plain_char : Keys → Option ℕ
plain_char s =
    if s.pressed_key == 1
    then some 0
    else if s.pressed_key == 14
    then some 8
    else if s.pressed_key == 15
    then some 9
    else if s.pressed_key == 28
    then some 10
    else get_elem? (if s.shift || s.ctrl then capitals else smalls) s.pressed_key

-- `single_elem_buffer[0] -= 64` is on a `char`, here the pattern of its byte.
pub fill_single_elem_buffer : Keys → Option ℕ
fill_single_elem_buffer s =
    plain_char s >>= λ c. some (if s.ctrl then (c + (256 - 64)) % 256 else c)

pub stdin_keyboard_feed : ℕ → Keys → ℕ → Option (ℕ × Keys × ℕ)
stdin_keyboard_feed key s elem_0 =
    let s' = press key s in
    if key_is_up s'.state
    then (fill_single_elem_buffer s' >>= λ c. some (1, initial, c))
    else some (0, s', elem_0)

-- What a byte from the keyboard reaches: the driver's state and `key_buffer[0]`, the typed input,
-- the processes and the console.
pub record Input : Type 0 where
  pub keys : Keys
  pub key_buffer : ℕ
  pub stdin : Stdin
  pub kernel : Kernel
  pub console : Console

pub buffer_add_char : ℕ → Input → Option Input
buffer_add_char c s = stdin_keyboard_feed c s.keys s.key_buffer >>= λ r.
    let fed = record s { keys = r.1; key_buffer = r.2 } in
    if r.0 == 0
    then some fed
    else (add_char fed.key_buffer s.stdin s.kernel >>= λ q.
        let added = record fed { stdin = q.1; kernel = q.2 } in
        some
          (if q.0 == 0 then added else record added { console = write_k fed.key_buffer s.console }))
