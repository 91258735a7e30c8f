-- ===== src/Process/Sample.antt =====
-- A block and a kernel at rest, for the tests of the other parts.
use my_sbuos.Base.{ℕ, []}
use my_sbuos.Process.{Kernel, Pcb, ready}

abbrev pub sample_block : (user_brk_point : ℕ) → Pcb
sample_block user_brk_point = record {
  pid = 1;
  ppid = 0;
  pml4 = 0;
  user_sp = 0;
  user_brk_point = user_brk_point;
  kernel_sp = 0;
  kernel_stack = 0;
  ip = 0;
  pname = [];
  wd = [];
  waiting_on_stdin = 0;
  waiting_on_pid = 0;
  waiting_on_clock = 0;
  exit_notify_status = 0;
  status_return = 0;
  status = ready;
  fd_table = λ i. record { file_start_address = 0; file_size = 0; file_offset = 0 };
  next_fd = 3;
}

abbrev pub sample_kernel : Pcb → Kernel
sample_kernel block = record {
  pcbs = λ p. block;
  slots = λ i. 0;
  head = 5;
  tail = 5;
  active = 1;
  prev_pid = 1;
  time_slice = 0;
  cr3 = 0;
  rsp0 = 0;
}
