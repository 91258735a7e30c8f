-- ===== src/Process/Tests.antt =====
-- Runs of the process queue, and its theorems at three processes.
use my_sbuos.Base.{ℕ, ◌≡◌, refl, true, false, some, [], ◌∷◌, arith, ◌==◌, if◌then◌else◌}
use my_sbuos.Process.{
  Kernel, Pcb, Status, ready, running, waiting, finished, FileDesc, notify_exit_pid,
  get_next_context,
}
use my_sbuos.Process.Queue.{contents, InBounds}
use my_sbuos.Process.Notify.{Woken, waits_for_exit, notify_exit_pid-Woken}
use my_sbuos.Process.Schedule.{Chosen, get_next_context-Chosen, get_next_context_total}

abbrev absent_file : FileDesc
absent_file = record { file_start_address = 0; file_size = 0; file_offset = 0 }

abbrev block : (pid : ℕ) → Status → Pcb
block pid status = record {
  pid = pid;
  ppid = 0;
  pml4 = 0x5000;
  user_sp = 0;
  user_brk_point = 0;
  kernel_sp = 0;
  kernel_stack = 0x9000;
  ip = 0;
  pname = [];
  wd = [];
  waiting_on_stdin = 0;
  waiting_on_pid = 0;
  waiting_on_clock = 0;
  exit_notify_status = 0;
  status_return = 0;
  status = status;
  fd_table = λ i. absent_file;
  next_fd = 3;
}

-- 7 is active and has ended, 8 waits for process 5 or its alarm at 30, 9 can run
abbrev blocks : ℕ → Pcb
blocks p =
    if p == 7
    then block 1 finished
    else if p == 8
    then record (block 2 waiting) {
      waiting_on_pid = 5;
      waiting_on_clock = 30;
      waiting_on_stdin = 1;
    }
    else block 3 ready

abbrev kernel : Kernel
kernel = record {
  pcbs = blocks;
  slots = λ i. if i == 99 then 8 else 9;
  head = 99;
  tail = 1;
  active = 7;
  prev_pid = 3;
  time_slice = 16;
  cr3 = 0;
  rsp0 = 0;
}

abbrev crowded : Kernel
crowded = record kernel { head = 0; tail = 99 }

kernel-InBounds : InBounds kernel
kernel-InBounds = omega arith

contents-kernel : contents kernel ≡ 8 ∷ 9 ∷ []
contents-kernel = refl

notify_exit_pid-Woken_example :
    Woken
      (waits_for_exit 5)
      (λ p. record p { waiting_on_pid = 0; exit_notify_status = 77; status = running })
      kernel
      (notify_exit_pid 5 77 kernel)
notify_exit_pid-Woken_example = notify_exit_pid-Woken kernel kernel-InBounds (omega arith) 5 77

get_next_context-Chosen_example : Chosen blocks 9 (8 ∷ []) (get_next_context 2 kernel)
get_next_context-Chosen_example =
    get_next_context-Chosen 2 kernel (8 ∷ []) [] 9 kernel-InBounds (omega arith) refl (refl, tt)
      refl (omega arith)

get_next_context_total_example :
    (k' : Kernel) × (get_next_context 100 kernel ≡ some k')
    × ((elim (k'.pcbs k'.active).status [ ready ↦ true | running ↦ true | _ ↦ false ]) ≡ true)
    × (k'.cr3 ≡ (k'.pcbs k'.active).pml4)
    × InBounds k'
get_next_context_total_example = get_next_context_total kernel kernel-InBounds (omega arith) refl
