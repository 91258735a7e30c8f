-- ===== src/Keyboard/Echo.antt =====
-- From the keyboard to the typed input and the screen.
use my_sbuos.Base.{
  Option, ℕ, ◌<◌, ◌≡◌, refl, ◌≢◌, false, some, ◌==◌, if◌then◌else◌, ◌>>=◌, ne→==, Distinct,
}
use my_sbuos.Process.Queue.{contents, InBounds}
use my_sbuos.Process.Notify.{woken_readers}
use my_sbuos.Stdin.{Stdin, backspace}
use my_sbuos.Stdin.Ring.{InBuffer, pending_count, Stored, ends_input, add_char-Stored}
use my_sbuos.Console.{Console, write_k}
use my_sbuos.Console.Echo.{Echoed, write_k-Echoed}
use my_sbuos.Keyboard.{
  s_finished, initial, k_shiftdown, k_ctrldown, press, fill_single_elem_buffer, stdin_keyboard_feed,
  Input, buffer_add_char,
}

-- What the two bytes of a stroke of the character `c` do.
pub record Typed (c : ℕ) (s : Input) (out : Option Input) : Type 0 where
  pub stdin : Stdin
  pub console : Console
  pub result :
      out
      ≡ some (record {
        keys = initial;
        key_buffer = c;
        stdin = stdin;
        kernel = if ends_input c then woken_readers s.kernel else s.kernel;
        console = console;
      })
  pub stored : Stored c s.stdin stdin
  pub shown : Echoed c s.console console

-- When no key is down, the buffer has room and the key has a character `c` other than 0, tab and
-- backspace, the two bytes of a stroke put `c` behind the pending characters, make every queued
-- process that waits for input run again when `c` ends an input, and show `c` at the cursor, or begin a
-- new row. The cursor is above row 22 and before column 79; the process queue is within its array and
-- holds no process twice.
pub buffer_add_char-stroke :
    (s : Input) (key up c : ℕ)
    → s.keys ≡ initial
    → key ≢ k_shiftdown
    → key ≢ k_ctrldown
    → fill_single_elem_buffer (record initial { state = s_finished; pressed_key = key }) ≡ some c
    → c ≢ 0
    → c ≢ 9
    → c ≢ backspace
    → InBuffer s.stdin
    → pending_count s.stdin < 255
    → InBounds s.kernel
    → Distinct (contents s.kernel)
    → s.console.row < 22
    → s.console.col < 79
    → Typed c s (buffer_add_char key s >>= buffer_add_char up)
unfolding buffer_add_char stdin_keyboard_feed press
buffer_add_char-stroke s key up c idle no_shift no_ctrl char no_0 no_9 plain v room queue distinct
      row col =
    let stored = add_char-Stored c s.stdin s.kernel v room plain queue distinct in
    let shift_no : (key == k_shiftdown) ≡ false = ne→== _ _ no_shift in
    let ctrl_no : (key == k_ctrldown) ≡ false = ne→== _ _ no_ctrl in
    record {
      stdin = stored.0;
      console = write_k c s.console;
      result = rw (idle, shift_no, ctrl_no, char, stored.1) refl;
      stored = stored.2;
      shown = write_k-Echoed c s.console row col no_0 no_9 plain;
    }
