-- ===== src/Creation.antt =====
-- sys/process_helpers.c and sys/systemcall.c: new processes, fork and exec. The blocks of the processes
-- lie in a store of their own, at the addresses that `kmalloc` gives; stacks and tables are words of the
-- memory behind the page tables. `none`: an access that faults, no free page, or a text of 50 characters or
-- more, which runs past `pname` or `wd`. The exchange of the stack pointer is assembly.
pub mod Program
use my_sbuos.Base.{
  ℕ, zero, suc, ◌+◌, ◌-◌, ◌*◌, ◌%◌, ◌^◌, Option, none, some, List, [], ◌∷◌, ◌++◌, ltb,
  if◌then◌else◌, ◌>>=◌, length, update,
}
use my_sbuos.Pages.{page_size}
use my_sbuos.Process.{Kernel, Pcb, ready, running, enqueue_process, schedule}
use my_sbuos.Virtual.{Space, read_word, write_word, get_new_page_v, kmalloc, get_new_page_table}
use my_sbuos.Virtual.Cow.{mark_cow, mark_fork_cross_entry}

-- `cr3` is one register: it stands in both parts.
pub record System : Type 0 where
  pub kernel : Kernel
  pub space : Space

-- The addresses of the code that a new stack returns to.
pub record Entries : Type 0 where
  pub sys_idle : ℕ
  pub k_thread_kernel : ℕ
  pub fork_return_from_child : ℕ

abbrev pub size_of_pcb : ℕ
size_of_pcb = 568

abbrev pub set_cr3 : ℕ → System → System
set_cr3 root s = record {
  kernel = record (s.kernel) { cr3 = root };
  space = record (s.space) { cr3 = root };
}

abbrev pub set_pcb : (p : ℕ) → Pcb → System → System
set_pcb p block s = record s { kernel = record (s.kernel) { pcbs = update s.kernel.pcbs p block } }

-- `proc->kernel_sp--; *(proc->kernel_sp) = v;`
pub push_kernel : (p v : ℕ) → System → Option System
push_kernel p v s =
    let block = s.kernel.pcbs p in
    let sp = block.kernel_sp - 8 in
    write_word sp v s.space >>= λ space.
    some (set_pcb p (record block { kernel_sp = sp }) (record s { space = space }))

-- What `kstrcpy(to, text, 50)` leaves in an array of 50 bytes.
abbrev pub name_50 : List ℕ → Option (List ℕ)
name_50 text = if ltb (length text) 50 then some text else none

pub get_new_pcb : System → Option (ℕ × System)
get_new_pcb s = kmalloc size_of_pcb s.space >>= λ res. get_new_page_v res.1 >>= λ stack.
    write_word (stack.0 + page_size - 8) 0 stack.1 >>= λ zeroed.
    get_new_page_table zeroed >>= λ root.
    let pid = (s.kernel.prev_pid + 1) % 2 ^ 32 in
    let old = s.kernel.pcbs res.0 in
    some (
      res.0,
      record {
        kernel = record (s.kernel) {
          prev_pid = pid;
          pcbs = update s.kernel.pcbs res.0 (record old {
            pid = pid;
            kernel_stack = stack.0;
            kernel_sp = stack.0 + page_size - 8;
            ppid = 0;
            waiting_on_stdin = 0;
            waiting_on_pid = 0;
            waiting_on_clock = 0;
            pml4 = root.0;
            user_brk_point = 0x0000700000000000;
            user_sp = 0x00006FFFFFFFFFF0;
            fd_table = λ i.
                if ltb i 15
                then record { file_start_address = 0; file_size = 0; file_offset = 0 }
                else old.fd_table i;
            next_fd = 3;
          });
        };
        space = root.1;
      },
    )

pub get_forked_pcb : (parent : ℕ) → System → Option (ℕ × System)
get_forked_pcb parent s = get_new_pcb s >>= λ child. get_new_page_table child.1.space >>= λ root.
    let from = child.1.kernel.pcbs parent in
    mark_fork_cross_entry from.pml4 root.0 root.1 >>= λ crossed. mark_cow crossed >>= λ marked.
    name_50 from.pname >>= λ pname. name_50 from.wd >>= λ wd. some (
      child.0,
      set_pcb child.0
          (record (child.1.kernel.pcbs child.0) {
            pml4 = root.0;
            ppid = from.pid;
            status = running;
            user_brk_point = from.user_brk_point;
            user_sp = from.user_sp;
            pname = pname;
            wd = wd;
          })
          (record (child.1) { space = marked }),
    )

-- The kernel stack, eight bytes at a time.
pub copy_stack : (n : ℕ) → (to from i : ℕ) → Space → Option Space
copy_stack zero to from i s = some s
copy_stack (suc n) to from i s =
    read_word (from + 8 * i) s >>= λ w. write_word (to + 8 * i) w s >>= copy_stack n to from (suc i)

pub process_run : (proc : ℕ) → System → System
process_run proc s = record s { kernel = enqueue_process s.kernel proc }

-- `rsp` is the stack pointer in `do_fork`.
pub do_fork : Entries → (rsp : ℕ) → System → Option (ℕ × System)
do_fork e rsp s =
    let proc = s.kernel.active in
    get_forked_pcb proc s >>= λ made.
    let child = made.0 in
    let from = made.1.kernel.pcbs proc in
    let block = made.1.kernel.pcbs child in
    copy_stack 512 block.kernel_stack from.kernel_stack 0 made.1.space >>= λ copied.
    let aside =
      set_pcb child (record block { kernel_sp = block.kernel_stack + rsp - from.kernel_stack + 64 })
        (record (made.1) { space = copied }) in
    push_kernel child e.fork_return_from_child aside >>= push_kernel child 0 >>= λ pushed.
    let queued = process_run child pushed in
    some ((queued.kernel.pcbs child).pid, set_cr3 (queued.kernel.pcbs proc).pml4 queued)

-- The idle process and the shell, up to the jump to the idle process. The head is not taken modulo
-- the size of the queue.
pub init : Entries → (idle_name shell_name shell_wd : List ℕ) → System → Option System
init e idle_name shell_name shell_wd s = get_new_pcb s >>= λ idle. name_50 idle_name >>= λ pname.
    let named =
      set_pcb idle.0 (record (idle.1.kernel.pcbs idle.0) { pname = pname; status = running })
        idle.1 in
    push_kernel idle.0 e.sys_idle named >>= λ s1. get_new_pcb s1 >>= λ shell.
    name_50 shell_name >>= λ bin. name_50 shell_wd >>= λ wd.
    let prepared =
      set_pcb shell.0
        (record (shell.1.kernel.pcbs shell.0) { pname = bin; wd = wd; status = ready }) shell.1 in
    push_kernel shell.0 e.k_thread_kernel prepared >>= push_kernel shell.0 0 >>= λ s2.
    let k = enqueue_process (enqueue_process s2.kernel idle.0) shell.0 in
    some (record s2 { kernel = record k { active = idle.0; head = (k.head + 1) % 2 ^ 32 } })

-- `for(; i >= 0; --i) { sp--; *sp = words[i]; }` from the last word on.
pub push_words : List ℕ → (sp : ℕ) → Space → Option (ℕ × Space)
push_words [] sp s = some (sp, s)
push_words (w ∷ ws) sp s =
    push_words ws sp s >>= λ r. write_word (r.0 - 8) w r.1 >>= λ s'. some (r.0 - 8, s')

-- `argv` and `envp` are the pointers before the null pointer; `rsp` is the stack pointer in `schedule`.
pub process_exec :
    Entries → (fuel rsp proc : ℕ) (abspath argv envp : List ℕ) → System → Option (ℕ × System)
process_exec e fuel rsp proc abspath argv envp s = name_50 abspath >>= λ pname.
    let named = set_pcb proc (record (s.kernel.pcbs proc) { pname = pname; status = ready }) s in
    push_kernel proc e.k_thread_kernel named >>= push_kernel proc 0 >>= λ s1.
    push_words envp 0x00006FFFFFFFFFF0 s1.space >>= λ r1.
    push_words (argv ++ 0 ∷ []) r1.0 r1.1 >>= λ r2.
    write_word (r2.0 - 8) (length argv) r2.1 >>= λ space.
    let s2 =
      set_pcb proc (record (s1.kernel.pcbs proc) { user_sp = r2.0 - 8 })
        (record s1 { space = space }) in
    schedule fuel rsp s2.kernel >>= λ r.
    some (2 ^ 32 - 1, set_cr3 r.1.cr3 (record s2 { kernel = r.1 }))
