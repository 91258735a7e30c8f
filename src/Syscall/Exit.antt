-- ===== src/Syscall/Exit.antt =====
-- `do_exit`: the process that ends leaves the queue, and those that wait for it run again.
use my_sbuos.Base.{
  ℕ, ◌<◌, ◌≡◌, refl, sym, ◌∙◌, inl, inr, true, false, ◌&&◌, arith, ◌==◌, if◌then◌else◌, Bool-cases,
  eq→==, ==_iff, NotIn, Distinct, mem, mem_of_NotIn, update, update_self, update_other, subst,
}
use mathlib.Core.Path.{fun_ext}
use my_sbuos.Process.{process_queue_size, Kernel, Pcb, running, finished, is_runnable, schedule}
use my_sbuos.Process.Queue.{InBounds, queue_length, contents}
use my_sbuos.Process.Notify.{waits_for_exit, notify_exit_pid-Woken}
use my_sbuos.Process.Leave.{Left, some_runnable-mem, schedule-Left}
use my_sbuos.Syscall.{set_active, do_exit}

-- The blocks after an exit: the process is finished, and who waits for it is woken with the status.
abbrev pub after_exit : (status : ℕ) → Kernel → ℕ → Pcb
after_exit status k j =
    let gone = k.pcbs k.active in
    if j == k.active
    then record gone { status = finished }
    else if mem j (contents k) && waits_for_exit gone.pid (k.pcbs j)
    then record (k.pcbs j) { waiting_on_pid = 0; exit_notify_status = status; status = running }
    else k.pcbs j

after_exit-each :
    (status : ℕ) (k : Kernel) (j : ℕ)
    → NotIn k.active (contents k)
    → let before = update k.pcbs k.active (record (k.pcbs k.active) { status = finished }) in
      (if mem j (contents k) && waits_for_exit (k.pcbs k.active).pid (before j)
        then record (before j) { waiting_on_pid = 0; exit_notify_status = status; status = running }
        else before j)
      ≡ after_exit status k j
after_exit-each status k j alone =
    let block : Pcb = record (k.pcbs k.active) { status = finished } in
    elim (Bool-cases (j == k.active)) [
      | inl e ↦
          let same : j ≡ k.active = (==_iff _ _).0 e in
          let out : mem j (contents k) ≡ false =
            subst (λ q. mem q (contents k) ≡ false) (sym same)
              (mem_of_NotIn k.active (contents k) alone) in
          let at : update k.pcbs k.active block j ≡ block =
            subst (λ q. update k.pcbs k.active block q ≡ block) (sym same)
              (update_self k.pcbs k.active block) in
          rw (out, at, e)
      | inr e ↦
          let at : update k.pcbs k.active block j ≡ k.pcbs j =
            update_other k.pcbs k.active j block (ground (arith, e)) in
          rw (at, e)
    ]

-- the waiting process
after_exit-runs :
    (status j : ℕ) (k : Kernel)
    → NotIn k.active (contents k)
    → mem j (contents k) ≡ true
    → waits_for_exit (k.pcbs k.active).pid (k.pcbs j) ≡ true
    → is_runnable (after_exit status k j).status ≡ true
after_exit-runs status j k alone queued waits = elim (Bool-cases (j == k.active)) [
  | inl e ↦
      let out : mem j (contents k) ≡ false =
        subst (λ q. mem q (contents k) ≡ false) (sym ((==_iff _ _).0 e))
          (mem_of_NotIn k.active (contents k) alone) in
      absurd (cc)
  | inr e ↦ rw (e, queued, waits)
]

-- When a queued process waits for the active one to exit, and no process stands in the queue twice or is
-- both queued and active, `do_exit` ends. The block of the process that exits is marked as finished and
-- keeps the stack pointer of the call, and the process is neither active nor queued; exactly the queued
-- processes that wait for it run again, with the exit status, and no other block changes; another process
-- is active, it can run, and its stack pointer is the one handed over.
pub do_exit-Left :
    (rsp status j : ℕ) (k : Kernel)
    → InBounds k
    → queue_length k < 99
    → Distinct (contents k)
    → NotIn k.active (contents k)
    → mem j (contents k) ≡ true
    → waits_for_exit (k.pcbs k.active).pid (k.pcbs j) ≡ true
    → Left k.active rsp (after_exit status k) (do_exit process_queue_size rsp status k)
unfolding do_exit
do_exit-Left rsp status j k v room d alone queued waits =
    let p = k.active in
    let gone = k.pcbs p in
    let k1 = set_active (λ q. record q { status = finished }) k in
    let w =
      notify_exit_pid-Woken k1 (record { head_in = v.head_in; tail_in = v.tail_in }) d gone.pid
        status in
    let k2 : Kernel = record k1 { pcbs = w.after } in
    let agrees : w.after ≡ after_exit status k =
      fun_ext (λ i. w.each i ∙ after_exit-each status k i alone) in
    let ends : (w.after p).status ≡ finished = rw agrees (rw (eq→== p p refl)) in
    let runs : is_runnable (w.after j).status ≡ true =
      rw agrees (after_exit-runs status j k alone queued waits) in
    let left =
      schedule-Left rsp k2 (record { head_in = v.head_in; tail_in = v.tail_in }) room alone ends
        (some_runnable-mem w.after j (contents k) queued runs) in
    rw w.result (subst (λ f. Left p rsp f (schedule process_queue_size rsp k2)) agrees left)
