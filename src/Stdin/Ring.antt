-- ===== src/Stdin/Ring.antt =====
-- The typed characters that are not read yet are a queue of at most 255.
use my_sbuos.Base.{
  ℕ, suc, ◌+◌, ◌-◌, ◌%◌, ◌^◌, ◌<◌, ◌≡◌, refl, ap, ◌∙◌, ◌≢◌, inl, inr, Bool, false, ◌||◌, Distinct,
  some, List, [], ◌∷◌, ◌++◌, arith, ◌==◌, if◌then◌else◌, Bool-cases, update, update_self,
}
use my_sbuos.Base.Ring.{window, window-snoc}
use my_sbuos.Process.{Kernel}
use my_sbuos.Process.Queue.{contents, InBounds}
use my_sbuos.Process.Notify.{woken_readers, notify_stdin-woken_readers}
use my_sbuos.Stdin.{
  stdin_buffer_size, backspace, newline, ctrl_d, next_point, rem_int, Stdin, add_char,
}

abbrev pub pending_count : Stdin → ℕ
pending_count s = (s.end_point + stdin_buffer_size - s.start_point) % stdin_buffer_size

abbrev pub pending : Stdin → List ℕ
pending s = window stdin_buffer_size s.buffer s.start_point (pending_count s)

pub record InBuffer (s : Stdin) : Type 0 where
  pub start_in : s.start_point < stdin_buffer_size
  pub end_in : s.end_point < stdin_buffer_size

abbrev pub ends_input : ℕ → Bool
ends_input c = (c == newline) || (c == ctrl_d)

-- A character that is stored: the state after it and its count.
pub record Stored (c : ℕ) (s s' : Stdin) : Type 0 where
  pub in_buffer : InBuffer s'
  pub characters : pending s' ≡ pending s ++ c ∷ []
  pub count :
      s'.input_count ≡ (if ends_input c then (s.input_count + 1) % 2 ^ 32 else s.input_count)

put_lem :
    (c n : ℕ) (s : Stdin)
    → InBuffer s
    → pending_count s < 255
    → let s' : Stdin = record {
      buffer = update s.buffer s.end_point c;
      start_point = s.start_point;
      end_point = next_point s.end_point;
      input_count = n;
    } in
      InBuffer s' × (pending s' ≡ pending s ++ c ∷ [])
put_lem c n s v room = (
  record { start_in = v.start_in; end_in = ground arith },
  ap (window stdin_buffer_size (update s.buffer s.end_point c) s.start_point) longer
      ∙ window-snoc stdin_buffer_size s.buffer s.start_point (pending_count s) s.end_point c
          v.start_in (omega arith) (omega arith),
)
  where
    longer :
        (next_point s.end_point + stdin_buffer_size - s.start_point) % stdin_buffer_size
        ≡ suc (pending_count s)
    longer = ground arith

-- While the buffer has room a character other than backspace is stored behind the pending ones
-- and is to be shown; a newline or control-D is counted and wakes the readers, whose wake-up ends.
pub add_char-Stored :
    (c : ℕ) (s : Stdin) (k : Kernel)
    → InBuffer s
    → pending_count s < 255
    → c ≢ backspace
    → InBounds k
    → Distinct (contents k)
    → (s' : Stdin) × (add_char c s k ≡ some (1, s', if ends_input c then woken_readers k else k))
      × Stored c s s'
unfolding add_char
add_char-Stored c s k v room ne queue distinct =
    let wake = notify_stdin-woken_readers k queue distinct in
    let open_end : (next_point s.end_point == s.start_point) ≡ false = ground arith in
    let kept : (c == backspace) ≡ false = ground arith in
    elim (Bool-cases (ends_input c)) [
      | inl e ↦
          let p = put_lem c ((s.input_count + 1) % 2 ^ 32) s v room in
          (
            record {
              buffer = update s.buffer s.end_point c;
              start_point = s.start_point;
              end_point = next_point s.end_point;
              input_count = (s.input_count + 1) % 2 ^ 32;
            },
            rw (open_end, kept, e, wake, add_char),
            record { in_buffer = p.0; characters = p.1; count = rw e },
          )
      | inr e ↦
          let p = put_lem c s.input_count s v room in
          (
            record {
              buffer = update s.buffer s.end_point c;
              start_point = s.start_point;
              end_point = next_point s.end_point;
              input_count = s.input_count;
            },
            rw (open_end, kept, e),
            record { in_buffer = p.0; characters = p.1; count = rw e },
          )
    ]

-- A full buffer drops every character, backspace included, and shows it all the same.
pub add_char-full :
    (c : ℕ) (s : Stdin) (k : Kernel)
    → InBuffer s
    → pending_count s ≡ 255
    → add_char c s k ≡ some (1, s, k)
unfolding add_char
add_char-full c s k v full = ground arith

-- Away from place 0 a backspace takes the last pending character back, whatever it is.
pub add_char-erase :
    (s : Stdin) (k : Kernel)
    → InBuffer s
    → 0 < pending_count s
    → pending_count s < 255
    → s.end_point ≢ 0
    → (s' : Stdin) × (x : ℕ) × (add_char backspace s k ≡ some (1, s', k))
      × InBuffer s'
      × (pending s ≡ pending s' ++ x ∷ [])
      × (s'.input_count ≡ s.input_count)
unfolding add_char
add_char-erase s k v some_left room inside =
    let s' : Stdin = record s {
      end_point = rem_int ((s.end_point + (2 ^ 32 - 1)) % 2 ^ 32) stdin_buffer_size;
    } in
    let one_less : pending_count s ≡ suc (pending_count s') = ground arith in
    (
      s',
      s.buffer ((s.start_point + pending_count s') % stdin_buffer_size),
      ground arith,
      record { start_in = v.start_in; end_in = ground arith },
      ap (window stdin_buffer_size s.buffer s.start_point) one_less,
      refl,
    )

-- At place 0, with characters pending at the end of the array, a backspace sets `end_point` to -1:
-- the next character is written before the array.
pub add_char-erase_wrap :
    (c : ℕ) (s : Stdin) (k : Kernel)
    → s.end_point ≡ 0
    → 1 < s.start_point
    → s.start_point < stdin_buffer_size
    → c ≢ backspace
    → ends_input c ≡ false
    → (s' : Stdin) × (s'' : Stdin) × (add_char backspace s k ≡ some (1, s', k))
      × (add_char c s' k ≡ some (1, s'', k))
      × (s''.buffer (2 ^ 32 - 1) ≡ c)
unfolding add_char
add_char-erase_wrap c s k at_0 ahead small ne plain = (
  record s { end_point = 2 ^ 32 - 1 },
  record s { end_point = 0; buffer = update s.buffer (2 ^ 32 - 1) c },
  ground arith,
  ground arith,
  update_self s.buffer (2 ^ 32 - 1) c,
)
