-- ===== src/Process.antt =====
-- sys/process_helpers.c: the process control blocks, the circular queue of processes, and the
-- functions that go through it. A `pcb*` is a number and `pcbs` is the memory behind it. The
-- fields that a loop writes are written in `pcbs`. C `int`s are their bit patterns below 2 ^ 32.
pub mod Queue
pub mod Notify
pub mod Schedule
pub mod Leave
pub mod Info
pub mod Sample
mod Tests
use mathlib.Core.Option
use my_sbuos.Base.{
  ℕ, zero, suc, ◌+◌, ◌-◌, ◌*◌, ◌/◌, ◌%◌, ◌^◌, ◌≤◌, ◌<◌, ◌≡◌, refl, sym, ap, ap₂, ◌∙◌, ◌≢◌, ◌⊎◌, inl,
  inr, Bool, true, false, not, ◌&&◌, ◌||◌, Option, none, some, List, [], ◌∷◌, ◌++◌, map, append-nil,
  append_assoc, arith, ltb, leb, ◌==◌, if◌then◌else◌, Bool-cases, Option-cases, ltb→lt, lt→ltb,
  leb→le, eq→==, ne→==, ==_iff, length, get_or, length-append, All, All-append, NotIn, Distinct,
  NotIn-append, Distinct-snoc, update, update_self, update_other,
}

abbrev pub process_queue_size : ℕ
process_queue_size = 100

abbrev pub time_slice_limit : ℕ
time_slice_limit = 16

-- `enum process_status`
pub data Status : Type 0 where
  ready running waiting finished : Status

pub record FileDesc : Type 0 where
  pub file_start_address : ℕ
  pub file_size : ℕ
  pub file_offset : ℕ

-- `pname` and `wd` are the bytes before the terminating zero; `fd_table` is a total array.
pub record Pcb : Type 0 where
  pub pid : ℕ
  pub ppid : ℕ
  pub pml4 : ℕ
  pub user_sp : ℕ
  pub user_brk_point : ℕ
  pub kernel_sp : ℕ
  pub kernel_stack : ℕ
  pub ip : ℕ
  pub pname : List ℕ
  pub wd : List ℕ
  pub waiting_on_stdin : ℕ
  pub waiting_on_pid : ℕ
  pub waiting_on_clock : ℕ
  pub exit_notify_status : ℕ
  pub status_return : ℕ
  pub status : Status
  pub fd_table : ℕ → FileDesc
  pub next_fd : ℕ

-- The globals: `processq`, `_active_pcb`, `_prev_pid`, `time_slice`, the register `cr3` and the
-- field `tss.rsp0`.
pub record Kernel : Type 0 where
  pub pcbs : ℕ → Pcb
  pub slots : ℕ → ℕ
  pub head : ℕ
  pub tail : ℕ
  pub active : ℕ
  pub prev_pid : ℕ
  pub time_slice : ℕ
  pub cr3 : ℕ
  pub rsp0 : ℕ

-- `(ptr+1)%PROCESS_QUEUE_SIZE` on a `uint32_t`
abbrev pub advance : ℕ → ℕ
advance ptr = (ptr + 1) % 2 ^ 32 % process_queue_size

abbrev pub is_finished : Status → Bool
is_finished finished = true
is_finished _ = false

abbrev pub is_waiting : Status → Bool
is_waiting waiting = true
is_waiting _ = false

abbrev pub is_runnable : Status → Bool
is_runnable ready = true
is_runnable running = true
is_runnable _ = false

pub process_init : Kernel → Kernel
process_init k = record k {
  prev_pid = 0;
  head = 0;
  tail = 0;
  slots = λ ind. if ltb ind process_queue_size then 0 else k.slots ind;
}

pub enqueue_process : Kernel → ℕ → Kernel
enqueue_process k process =
    if is_finished (k.pcbs process).status
    then k
    else record k { slots = update k.slots k.tail process; tail = advance k.tail }

-- `for (ptr = head; ptr != tail; ptr = (ptr+1)%SIZE)`, where the body gives the block at `list[ptr]`
-- a new value. `none`: the loop has not ended.
unfoldable pub each_from : ℕ → (Pcb → Pcb) → (ℕ → ℕ) → (ptr tail : ℕ) → (ℕ → Pcb) → Option (ℕ → Pcb)
each_from zero body slots ptr tail pcbs = none
each_from (suc k) body slots ptr tail pcbs =
    let rest =
      each_from k body slots (advance ptr) tail
        (update pcbs (slots ptr) (body (pcbs (slots ptr)))) in
    if ptr == tail then some pcbs else rest

unfoldable pub each_process : (Pcb → Pcb) → Kernel → Option Kernel
each_process body k = elim (each_from process_queue_size body k.slots k.head k.tail k.pcbs) [
  | none ↦ none
  | some pcbs ↦ some (record k { pcbs = pcbs })
]

-- The same loop, left at the first block that passes the test: `some none` is `NULL`.
pub find_from : ℕ → (Pcb → Bool) → (ℕ → ℕ) → (ptr tail : ℕ) → (ℕ → Pcb) → Option (Option ℕ)
find_from zero test slots ptr tail pcbs = none
find_from (suc k) test slots ptr tail pcbs =
    let rest = find_from k test slots (advance ptr) tail pcbs in
    if ptr == tail
    then some none
    else if test (pcbs (slots ptr))
    then some (some (slots ptr))
    else rest

pub find_process : (Pcb → Bool) → Kernel → Option (Option ℕ)
find_process test k = find_from process_queue_size test k.slots k.head k.tail k.pcbs

-- The bodies of `notify_stdin`, `notify_exit_pid` and `notify_alarm`.
pub wake_stdin : Pcb → Pcb
wake_stdin p =
    if is_waiting p.status && not (p.waiting_on_stdin == 0)
    then record p { waiting_on_stdin = 0; status = running }
    else p

pub wake_exit : (pid status : ℕ) → Pcb → Pcb
wake_exit pid status p =
    if is_waiting p.status && (p.waiting_on_pid == pid)
    then record p { waiting_on_pid = 0; exit_notify_status = status; status = running }
    else p

pub wake_alarm : (clock : ℕ) → Pcb → Pcb
wake_alarm clock p =
    if is_waiting p.status && (not (p.waiting_on_clock == 0) && leb p.waiting_on_clock clock)
    then record p { waiting_on_clock = 0; status = running }
    else p

unfoldable pub notify_stdin : Kernel → Option Kernel
notify_stdin = each_process wake_stdin

pub notify_exit_pid : (pid status : ℕ) → Kernel → Option Kernel
notify_exit_pid pid status = each_process (wake_exit pid status)

unfoldable pub notify_alarm : (clock : ℕ) → Kernel → Option Kernel
notify_alarm clock = each_process (wake_alarm clock)

pub find_pcb_by_ppid : ℕ → Kernel → Option (Option ℕ)
find_pcb_by_ppid ppid = find_process (λ p. p.ppid == ppid)

pub find_pcb_by_pid : ℕ → Kernel → Option (Option ℕ)
find_pcb_by_pid pid = find_process (λ p. p.pid == pid)

-- The returned number beside the state: 0 for success, 1 when no process has the id.
-- An `int` that is compared with a `uint64_t`, widened by its sign.
abbrev pub as_uint64 : ℕ → ℕ
as_uint64 n = if leb (2 ^ 31) n then n + (2 ^ 64 - 2 ^ 32) else n

pub kill_pid : ℕ → Kernel → Option (ℕ × Kernel)
kill_pid pid k = elim (find_process (λ p. as_uint64 p.pid == pid) k) [
  | none ↦ none
  | some none ↦ some (1, k)
  | some (some p) ↦
      some (0, record k { pcbs = update k.pcbs p (record (k.pcbs p) { status = finished }) })
]

-- What follows the choice in `get_next_context`.
pub load_context : Kernel → Kernel
load_context k = record k {
  cr3 = (k.pcbs k.active).pml4;
  rsp0 = ((k.pcbs k.active).kernel_stack + 4096) % 2 ^ 64;
  time_slice = 0;
}

-- The first lines of `get_next_context`: the active process is queued, and the first process of
-- the queue becomes the active one.
pub rotate : Kernel → Kernel
rotate k =
    let filled = enqueue_process k k.active in
    record filled { active = filled.slots filled.head; head = advance filled.head }

-- The process that is returned is the active one. `none`: the recursion is deeper than the fuel.
pub get_next_context : ℕ → Kernel → Option Kernel
get_next_context zero k = none
get_next_context (suc f) k =
    let popped = rotate k in
    let deeper = get_next_context f popped in
    Option.map load_context
      (if is_runnable (popped.pcbs popped.active).status then some popped else deeper)

-- `rsp` is the stack pointer at the call; the one of the process that runs next is returned.
pub schedule : ℕ → (rsp : ℕ) → Kernel → Option (ℕ × Kernel)
schedule fuel rsp k =
    let saved = record k {
      pcbs = update k.pcbs k.active (record (k.pcbs k.active) { kernel_sp = rsp });
    } in
    Option.map (λ k'. ((k'.pcbs k'.active).kernel_sp, k')) (get_next_context fuel saved)

pub preempt : ℕ → (rsp : ℕ) → Kernel → Option (ℕ × Kernel)
preempt fuel rsp k =
    let ticked = record k { time_slice = k.time_slice + 1 } in
    if ltb time_slice_limit ticked.time_slice
    then schedule fuel rsp (record ticked { time_slice = 0 })
    else some (rsp, ticked)
