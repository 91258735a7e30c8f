-- ===== src/Keyboard/Tests.antt =====
-- The strokes "a" and Shift-"a", and the Enter key.
use my_sbuos.Base.{◌≡◌, refl, some, List, [], ◌∷◌, arith, ◌==◌, if◌then◌else◌, ◌>>=◌, All}
use my_sbuos.Process.Sample.{sample_block, sample_kernel}
use my_sbuos.Process.{Kernel, waiting}
use my_sbuos.Keyboard.{
  s_finished, Input, initial, buffer_add_char, fill_single_elem_buffer, plain_char, k_shiftdown,
}
use my_sbuos.Keyboard.Feed.{Stroke, plain, shifted, feed_all, Typeable, feed_all-strokes}
use my_sbuos.Keyboard.Echo.{Typed, buffer_add_char-stroke}

abbrev strokes : List Stroke
strokes =
    record { modifier = plain; key = 30; up_1 = 158; up_2 = 0; char = 97 }
    ∷ record { modifier = shifted; key = 30; up_1 = 158; up_2 = 170; char = 65 }
    ∷ []

strokes-Typeable : All Typeable strokes
unfolding fill_single_elem_buffer plain_char
strokes-Typeable = ((omega arith, omega arith, refl), ((omega arith, omega arith, refl), tt))

feed_all-strokes_example :
    feed_all (30 ∷ 158 ∷ k_shiftdown ∷ 30 ∷ 158 ∷ 170 ∷ []) initial 0 ≡ some (97 ∷ 65 ∷ [], initial)
feed_all-strokes_example = feed_all-strokes strokes 0 strokes-Typeable

-- 8 waits for input, 9 can run
abbrev kernel : Kernel
kernel = record (sample_kernel (sample_block 0)) {
  pcbs = λ p.
      if p == 8
      then record (sample_block 0) { status = waiting; waiting_on_stdin = 1 }
      else sample_block 0;
  slots = λ i. if i == 99 then 8 else 9;
  head = 99;
  tail = 1;
}

abbrev input : Input
input = record {
  keys = initial;
  key_buffer = 0;
  stdin = record { buffer = λ i. 0; start_point = 4; end_point = 4; input_count = 0 };
  kernel = kernel;
  console = record { row = 3; col = 7; display = λ i. 0 };
}

newline_char :
    fill_single_elem_buffer (record initial { state = s_finished; pressed_key = 28 }) ≡ some 10
unfolding fill_single_elem_buffer plain_char
newline_char = refl

buffer_add_char-stroke_example : Typed 10 input (buffer_add_char 28 input >>= buffer_add_char 156)
buffer_add_char-stroke_example =
    buffer_add_char-stroke input 28 156 10 refl (omega arith) (omega arith) newline_char
      (omega arith) (omega arith) (omega arith) (omega arith) (omega arith) (omega arith)
      (omega arith) (omega arith) (omega arith)
