-- ===== src/Stdin/Tests.antt =====
-- Theorems of the typed characters at small buffers.
use my_sbuos.Base.{◌≡◌, refl, some, [], ◌∷◌, arith, ◌==◌, if◌then◌else◌}
use my_sbuos.Process.Sample.{sample_block, sample_kernel}
use my_sbuos.Process.{Kernel, waiting}
use my_sbuos.Process.Notify.{woken_readers}
use my_sbuos.Stdin.{Stdin, add_char, copy_input}
use my_sbuos.Stdin.Ring.{Stored, add_char-Stored}
use my_sbuos.Stdin.Copy.{Copied, copy_input-Copied}

-- 8 waits for input, 9 can run
abbrev kernel : Kernel
kernel = record (sample_kernel (sample_block 0)) {
  pcbs = λ p.
      if p == 8
      then record (sample_block 0) { status = waiting; waiting_on_stdin = 1 }
      else sample_block 0;
  slots = λ i. if i == 99 then 8 else 9;
  head = 99;
  tail = 1;
}

-- "ab\nc" across the end of the array
abbrev typed : Stdin
typed = record {
  buffer = λ i. if i == 254 then 97 else if i == 255 then 98 else if i == 0 then 10 else 99;
  start_point = 254;
  end_point = 2;
  input_count = 1;
}

abbrev at_start : Stdin
at_start = record typed { end_point = 0; input_count = 0 }

abbrev crammed : Stdin
crammed = record typed { end_point = 253 }

add_char-Stored_example :
    (s' : Stdin) × (add_char 10 typed kernel ≡ some (1, s', woken_readers kernel))
    × Stored 10 typed s'
add_char-Stored_example =
    add_char-Stored 10 typed kernel (omega arith) (omega arith) (omega arith) (omega arith)
      (omega arith)

copy_input-Copied_example :
    Copied 0 (97 ∷ 98 ∷ []) (99 ∷ []) 1 (λ i. 0) (copy_input 5 80 (λ i. 0) typed)
copy_input-Copied_example =
    copy_input-Copied 5 80 (λ i. 0) typed (97 ∷ 98 ∷ []) (99 ∷ []) (omega arith) refl (omega arith)
      (omega arith) (omega arith) (omega arith) (omega arith)
