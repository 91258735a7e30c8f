-- ===== src/Syscall/Tests.antt =====
-- The system calls at a process 1 that runs while process 2 waits for it.
use my_sbuos.Base.{ℕ, ◌<◌, ◌≡◌, refl, ◌≢◌, [], arith, ◌==◌, if◌then◌else◌}
use my_sbuos.Process.{Kernel, Pcb, Status, ready, waiting, process_queue_size}
use my_sbuos.Process.Leave.{Left}
use my_sbuos.Console.{Console}
use my_sbuos.Syscall.{heap_top, do_break, do_exit}
use my_sbuos.Syscall.Memory.{break_of, BreakAnswer, do_break-BreakAnswer}
use my_sbuos.Syscall.Exit.{after_exit, do_exit-Left}

abbrev block : (pid waits : ℕ) → Status → Pcb
block pid waits status = record {
  pid = pid;
  ppid = 0;
  pml4 = 7;
  user_sp = 0;
  user_brk_point = 4096;
  kernel_sp = 0;
  kernel_stack = 0;
  ip = 0;
  pname = [];
  wd = [];
  waiting_on_stdin = 0;
  waiting_on_pid = waits;
  waiting_on_clock = 0;
  exit_notify_status = 0;
  status_return = 0;
  status = status;
  fd_table = λ i. record { file_start_address = 0; file_size = 0; file_offset = 0 };
  next_fd = 3;
}

abbrev kernel : Kernel
kernel = record {
  pcbs = λ p. if p == 2 then block 2 1 waiting else block 1 0 ready;
  slots = λ i. 2;
  head = 99;
  tail = 0;
  active = 1;
  prev_pid = 2;
  time_slice = 0;
  cr3 = 0;
  rsp0 = 0;
}

do_break-BreakAnswer_example :
    (break_of (do_break 8192 kernel).1 < heap_top)
    × BreakAnswer 8192 kernel (do_break 8192 kernel)
    × ((j : ℕ) → j ≢ 1 → (do_break 8192 kernel).1.pcbs j ≡ kernel.pcbs j)
do_break-BreakAnswer_example = do_break-BreakAnswer 8192 kernel (omega arith)

abbrev memory : ℕ → ℕ
memory i = if i == 10 then 97 else if i == 11 then 98 else 0

abbrev screen : Console
screen = record { row = 0; col = 0; display = λ i. 0 }

do_exit-Left_example : Left 1 0 (after_exit 3 kernel) (do_exit process_queue_size 0 3 kernel)
do_exit-Left_example =
    do_exit-Left 0 3 2 kernel (record { head_in = omega arith; tail_in = omega arith })
      (omega arith) (tt, tt) (omega arith, tt) refl refl
