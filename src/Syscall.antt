-- ===== src/Syscall.antt =====
-- sys/systemcall.c: the system calls on the processes, the break, the screen and the descriptors.
-- A call that gives up the processor is modelled up to the switch: it returns the stack pointer of
-- the process that runs next with the state; `fuel` bounds the nested calls of `get_next_context`.
pub mod Memory
pub mod Exit
pub mod Dispatch
pub mod Files
mod Tests
use my_sbuos.Base.{
  ℕ, zero, suc, ◌+◌, ◌-◌, ◌*◌, ◌/◌, ◌%◌, ◌^◌, ◌≤◌, ◌<◌, ◌≡◌, refl, sym, ap, ap₂, ◌∙◌, ◌≢◌, ◌⊎◌, inl,
  inr, Bool, true, false, not, ◌&&◌, ◌||◌, Option, none, some, List, [], ◌∷◌, ◌++◌, map, append-nil,
  append_assoc, arith, ltb, leb, ◌==◌, if◌then◌else◌, Bool-cases, Option-cases, ◌>>=◌, ltb→lt,
  lt→ltb, leb→le, eq→==, ne→==, ==_iff, length, get_or, length-append, All, All-append, NotIn,
  Distinct, NotIn-append, Distinct-snoc, mem, NotIn-of_mem, mem_of_NotIn, mem-append, update,
  update_self, update_other, Holds, Holds-agree, Holds-append, Holds-append_left,
  Holds-append_right, subst,
}
use my_sbuos.Process.{
  Kernel, Pcb, Status, waiting, finished, FileDesc, kill_pid, notify_exit_pid, schedule,
}
use my_sbuos.Timer.{Timer, print_tick_divide, timer_get_clock}
use my_sbuos.Console.{Console, write_k}

abbrev pub heap_top : ℕ
heap_top = 119 * 2 ^ 40

-- -1 as a `uint64_t`
abbrev pub failed : ℕ
failed = 2 ^ 64 - 1

abbrev pub set_active : (Pcb → Pcb) → Kernel → Kernel
set_active body k = record k { pcbs = update k.pcbs k.active (body (k.pcbs k.active)) }

pub do_break : ℕ → Kernel → ℕ × Kernel
do_break arg1 k =
    if arg1 == 0
    then ((k.pcbs k.active).user_brk_point, k)
    else if leb heap_top arg1
    then (failed, k)
    else (arg1, set_active (λ p. record p { user_brk_point = arg1 }) k)

-- `left` rounds are left before `size` characters are written.
unfoldable pub write_loop : (left : ℕ) → (m : ℕ → ℕ) (str i : ℕ) → Console → ℕ × Console
write_loop zero m str i s = (i, s)
write_loop (suc n) m str i s =
    let rest = write_loop n m str (suc i) (write_k (m (str + i)) s) in
    if m (str + i) == 0 then (i, s) else rest

unfoldable pub do_write : (m : ℕ → ℕ) (fd buffer size : ℕ) → Console → ℕ × Console
do_write m fd buffer size s = if fd == 1 then write_loop size m buffer 0 s else (0, s)

pub do_waitpid : (fuel rsp pid status_return : ℕ) → Kernel → Option (ℕ × Kernel)
do_waitpid fuel rsp pid status_return k = schedule fuel rsp (
    set_active
      (λ p. record p {
        waiting_on_pid = pid % 2 ^ 32;
        status = waiting;
        status_return = status_return;
      })
      k)

-- Behind the switch back: `m` holds the `int`s of the caller's memory by address.
pub resume_waitpid : Kernel → (ℕ → ℕ) → ℕ × (ℕ → ℕ)
resume_waitpid k m =
    (0, update m (k.pcbs k.active).status_return ((k.pcbs k.active).exit_notify_status % 2 ^ 32))

pub do_alarm : (fuel rsp seconds : ℕ) → Timer → Kernel → Option (ℕ × Kernel)
do_alarm fuel rsp seconds t k = schedule fuel rsp (
    set_active
      (λ p. record p {
        waiting_on_clock = (timer_get_clock t + print_tick_divide * seconds) % 2 ^ 64;
        status = waiting;
      })
      k)

-- `vma_free_pages` is empty in the source.
pub do_exit : (fuel rsp status : ℕ) → Kernel → Option (ℕ × Kernel)
do_exit fuel rsp status k =
    notify_exit_pid (k.pcbs k.active).pid status
      (set_active (λ p. record p { status = finished }) k)
    >>= schedule fuel rsp

pub do_close : ℕ → Kernel → ℕ × Kernel
do_close fd k = (
  0,
  set_active
      (λ p. record p {
        fd_table =
            update p.fd_table fd
              (record { file_start_address = 0; file_size = 0; file_offset = 0 });
      })
      k,
)

pub do_kill : (pid sig : ℕ) → Kernel → Option (ℕ × Kernel)
do_kill pid sig k = kill_pid pid k >>= λ r.
    if r.0 == 0
    then (notify_exit_pid (pid % 2 ^ 32) sig r.1 >>= λ k'. some (0, k'))
    else some (failed, r.1)

pub do_yield : (fuel rsp : ℕ) → Kernel → Option (ℕ × Kernel)
do_yield fuel rsp k = schedule fuel rsp k
