-- ===== src/Programs/Tests.antt =====
-- `kill 7` with the sample process, whose number is 1: no process has the number 7. And `ls` on a directory
-- of one entry.
use my_sbuos.Base.{
  ℕ, ◌-◌, leb, if◌then◌else◌, get_or, ◌≡◌, refl, Option, none, some, [], ◌∷◌, arith, ◌>>=◌,
}
use my_sbuos.Console.Numbers.{itoa_printf}
use my_sbuos.Console.Numbers.Digits.{itoa_printf-Printed}
use my_sbuos.Process.{Kernel}
use my_sbuos.Process.Sample.{sample_block, sample_kernel}
use my_sbuos.Syscall.{do_kill}
use my_sbuos.Syscall.Dispatch.{Call, call_kill, do_system_call}
use my_sbuos.Directory.Sample.{dir, entries, entries-Lists}
use my_sbuos.Directory.Listing.{Lists}
use my_sbuos.Format.{Output}
use my_sbuos.Format.Line.{line_format}
use my_sbuos.Programs.Listed.{Lists-agree, Apart, Shows, ls_loop-Shows}
use my_sbuos.Library.{Host}
use my_sbuos.Programs.{Texts, kill_main, atoi}
use my_sbuos.Programs.Number.{atoi-itoa_printf}
use my_sbuos.Programs.Sent.{Serves, report, kill_main-report}

-- The buffer of `printf` is a store of its own.
pub record World : Type 0 where
  pub kernel : Kernel
  pub memory : ℕ → ℕ
  pub output : Output

abbrev run_call : Call → World → Option (ℕ × World)
run_call (call_kill pid sig) s =
    do_kill pid sig s.kernel >>= λ r. some (r.0, record s { kernel = r.1 })
run_call c s = none

abbrev host : Host World
host = record {
  int80 = λ rax rdi rsi rdx s. do_system_call rax rdi rsi rdx >>= λ c. run_call c s;
  memory = λ s. s.memory;
  output = λ s. s.output;
  set_output = λ o s. record s { output = o };
  print_fuel = 260;
  rdi = 0;
  rsi = 0;
  rdx = 0;
}

abbrev serves : Serves host
serves = record {
  kernel_of = λ s. s.kernel;
  set_kernel = λ k s. record s { kernel = k };
  kills = λ rax rdi rsi rdx pid sig s e. rw e refl;
}

abbrev texts : Texts
texts = record {
  need_argument = 0;
  no_process = 0;
  failed_to_open = 0;
  string_format = 0;
  ps_head = 0;
  ps_line = 0;
  argc_line = 0;
  argv_line = 0;
  envp_line = 0;
  name_line = 3000;
  no_listing = 0;
  buffer = 0;
}

abbrev typed : ℕ → ℕ
typed = itoa_printf (λ i. 0) 100 7

abbrev kernel : Kernel
kernel = sample_kernel (sample_block 0)

abbrev world : (ℕ → ℕ) → World
world m = record {
  kernel = kernel;
  memory = m;
  output = record {
    buffer = λ i. 0;
    str_array = 0;
    printed = 0;
    console = record { row = 0; col = 0; display = λ i. 0 };
  };
}

kill_main-report_example :
    kill_main host texts 2 (λ i. 100) (world typed)
    ≡ (do_kill 7 9 kernel >>= λ r. report host texts 7 r.0 (record (world typed) { kernel = r.1 }))
kill_main-report_example =
    kill_main-report host serves texts 2 7 (λ i. 100) (λ i. 0) (world typed) (omega arith)
      (omega arith) (omega arith) (itoa_printf-Printed (λ i. 0) 100 7 (omega arith) (omega arith))

atoi-itoa_printf_example : atoi (itoa_printf (λ i. 0) 100 4207) 100 ≡ 4207
atoi-itoa_printf_example = atoi-itoa_printf (λ i. 0) 100 4207 (omega arith)

abbrev listing : ℕ → ℕ
listing a = if leb 3000 a then get_or line_format (a - 3000) 0 else entries a

listing-Lists : Lists listing 1000 ((97 ∷ []) ∷ [])
listing-Lists =
    Lists-agree ((97 ∷ []) ∷ []) 1000 entries listing (λ j a b. ground arith) entries-Lists

listing-Apart : Apart host texts 1000 1288
listing-Apart = record {
  output_set = λ o s. refl;
  listing_kept = λ o s j a b. refl;
  format_kept = λ o s j a b. refl;
}

ls_loop-Shows_example : Shows host texts 2 dir ((97 ∷ []) ∷ []) (world listing)
ls_loop-Shows_example =
    ls_loop-Shows host texts 2 dir ((97 ∷ []) ∷ []) (world listing) listing-Apart
      (refl, (refl, (refl, (refl, tt)))) listing-Lists (omega arith) (omega arith) (omega arith)
      (omega arith)
