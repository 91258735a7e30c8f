-- ===== src/Process/Notify.antt =====
-- The loops that go through the queue: what `notify_stdin`, `notify_exit_pid`, `notify_alarm`,
-- `find_pcb_by_pid` and `kill_pid` do to the processes that are queued.
use mathlib.Core.Path.{subst, fun_ext}
use my_sbuos.Base.{
  ℕ, zero, suc, ◌+◌, ◌-◌, ◌%◌, ◌<◌, ◌≡◌, refl, sym, ap, ◌∙◌, ◌≢◌, inl, inr, Bool, true, false, not,
  ◌&&◌, Option, none, some, List, [], ◌∷◌, arith, ltb, leb, ◌==◌, if◌then◌else◌, Bool-cases,
  Option-cases, eq→==, ne→==, ==_iff, NotIn, Distinct, update, mem, update_self, update_other,
}
use my_sbuos.Base.Ring.{window, window-cons}
use my_sbuos.Process.{
  process_queue_size, as_uint64, Kernel, Pcb, running, finished, advance, is_waiting, each_from,
  each_process, find_from, find_process, kill_pid, wake_stdin, wake_exit, wake_alarm, notify_stdin,
  notify_exit_pid, notify_alarm,
}
use my_sbuos.Process.Queue.{queue_length, contents, InBounds}

-- The blocks of `ps` are replaced, one after the other.
touch : (Pcb → Pcb) → List ℕ → (ℕ → Pcb) → ℕ → Pcb
touch body [] pcbs = pcbs
touch body (p ∷ ps) pcbs = touch body ps (update pcbs p (body (pcbs p)))

touch_outside :
    (body : Pcb → Pcb) (ps : List ℕ) (pcbs : ℕ → Pcb) (j : ℕ)
    → NotIn j ps
    → touch body ps pcbs j ≡ pcbs j
unfolding touch
touch_outside body [] pcbs j out = refl
touch_outside body (p ∷ ps) pcbs j out =
    touch_outside body ps _ j out.1 ∙ update_other pcbs p j (body (pcbs p)) out.0

touch_each :
    (body : Pcb → Pcb) (ps : List ℕ) (pcbs : ℕ → Pcb) (j : ℕ)
    → Distinct ps
    → touch body ps pcbs j ≡ (if mem j ps then body (pcbs j) else pcbs j)
unfolding touch
touch_each body [] pcbs j d = refl
touch_each body (p ∷ ps) pcbs j d = elim (Bool-cases (j == p)) [
  | inl e ↦ rw e (
      subst (λ i. touch body ps (update pcbs p (body (pcbs p))) i ≡ body (pcbs i))
        (sym ((==_iff j p).0 e))
        (touch_outside body ps _ p d.0 ∙ update_self pcbs p (body (pcbs p))))
  | inr e ↦
      let other : j ≢ p = ground arith in
      rw e (
        touch_each body ps _ j d.1
        ∙ ap (λ (c : Pcb). if mem j ps then body c else c)
            (update_other pcbs p j (body (pcbs p)) other))
]

-- The step of a loop: `window` seen from the next index.
module _ (slots : ℕ → ℕ) (ptr tail n : ℕ) (ptr_in : ptr < process_queue_size)
    (tail_in : tail < process_queue_size) where
  window_step :
      window process_queue_size slots ptr (suc n)
      ≡ slots ptr ∷ window process_queue_size slots (advance ptr) n
  window_step =
      window-cons process_queue_size slots ptr n ptr_in
      ∙ ap (λ h. slots ptr ∷ window process_queue_size slots h n) same_next
    where
      same_next : (ptr + 1) % process_queue_size ≡ advance ptr
      same_next = omega arith

each_from-touch :
    (k n : ℕ) (body : Pcb → Pcb) (slots : ℕ → ℕ) (ptr tail : ℕ) (pcbs : ℕ → Pcb)
    → ptr < process_queue_size
    → tail < process_queue_size
    → n ≡ (tail + process_queue_size - ptr) % process_queue_size
    → n < k
    → each_from k body slots ptr tail pcbs
      ≡ some (touch body (window process_queue_size slots ptr n) pcbs)
unfolding each_from touch
each_from-touch zero n body slots ptr tail pcbs p t e fuel = absurd (omega arith)
each_from-touch (suc k) zero body slots ptr tail pcbs p t e fuel =
    let stop : (ptr == tail) ≡ true = eq→== _ _ (omega arith) in rw stop
each_from-touch (suc k) (suc n) body slots ptr tail pcbs p t e fuel =
    let go : (ptr == tail) ≡ false = ne→== _ _ (omega arith) in
    rw go (
      each_from-touch k n body slots (advance ptr) tail _ (omega arith) t (omega arith)
        (omega arith)
      ∙ ap (λ ps. some (touch body ps pcbs)) (sym (window_step slots ptr tail n p t)))

-- A run of a loop that gives each queued block the value `body` and leaves everything else.
pub record Touched (body : Pcb → Pcb) (k : Kernel) (out : Option Kernel) : Type 0 where
  pub pcbs : ℕ → Pcb
  pub result : out ≡ some (record k { pcbs = pcbs })
  pub each : (j : ℕ) → pcbs j ≡ (if mem j (contents k) then body (k.pcbs j) else k.pcbs j)

each_process-Touched :
    (body : Pcb → Pcb) (k : Kernel)
    → InBounds k
    → Distinct (contents k)
    → Touched body k (each_process body k)
unfolding each_process
each_process-Touched body k v d = record {
  pcbs = touch body (contents k) k.pcbs;
  result = rw (
    each_from-touch process_queue_size (queue_length k) body k.slots k.head k.tail k.pcbs v.head_in
        v.tail_in refl (omega arith),
    each_process,
  );
  each = λ j. touch_each body (contents k) k.pcbs j d;
}

-- What a process waits for.
abbrev pub waits_for_input : Pcb → Bool
waits_for_input p = is_waiting p.status && not (p.waiting_on_stdin == 0)

abbrev pub waits_for_exit : ℕ → Pcb → Bool
waits_for_exit pid p = is_waiting p.status && (p.waiting_on_pid == pid)

abbrev pub alarm_due : ℕ → Pcb → Bool
alarm_due clock p =
    is_waiting p.status && (ltb 0 p.waiting_on_clock && leb p.waiting_on_clock clock)

-- The loop ends and changes the blocks of the queued processes that pass the test, and no other.
pub record Woken (test : Pcb → Bool) (woken : Pcb → Pcb) (k : Kernel) (out : Option Kernel)
    : Type 0 where
  pub after : ℕ → Pcb
  pub result : out ≡ some (record k { pcbs = after })
  pub each :
      (j : ℕ)
      → after j ≡ (if mem j (contents k) && test (k.pcbs j) then woken (k.pcbs j) else k.pcbs j)

-- The kernel in which every queued process that waits for input runs again.
abbrev pub woken_readers : Kernel → Kernel
woken_readers k = record k {
  pcbs = λ j.
      if mem j (contents k) && waits_for_input (k.pcbs j)
      then record (k.pcbs j) { waiting_on_stdin = 0; status = running }
      else k.pcbs j;
}

module _ (k : Kernel) (v : InBounds k) (d : Distinct (contents k)) where
  -- `notify_stdin` makes exactly the queued processes that wait for input run again.
  pub notify_stdin-Woken :
      Woken waits_for_input
        (λ p. record p { waiting_on_stdin = 0; status = running })
        k
        (notify_stdin k)
  unfolding notify_stdin wake_stdin
  notify_stdin-Woken =
      let t = each_process-Touched wake_stdin k v d in
      record { after = t.pcbs; result = t.result; each = λ j. t.each j ∙ ground arith }

  -- Every queued process that waits for input runs again; nothing else changes, and the loop ends.
  pub notify_stdin-woken_readers : notify_stdin k ≡ some (woken_readers k)
  notify_stdin-woken_readers =
      let w = notify_stdin-Woken in
      w.result ∙ ap (λ pcbs. some (record k { pcbs = pcbs })) (fun_ext w.each)

  -- `notify_exit_pid` makes exactly the queued processes that wait for `pid` run again, and hands
  -- them the status.
  pub notify_exit_pid-Woken :
      (pid status : ℕ)
      → Woken
          (waits_for_exit pid)
          (λ p. record p { waiting_on_pid = 0; exit_notify_status = status; status = running })
          k
          (notify_exit_pid pid status k)
  unfolding notify_exit_pid wake_exit
  notify_exit_pid-Woken pid status =
      let t = each_process-Touched (wake_exit pid status) k v d in
      record { after = t.pcbs; result = t.result; each = λ j. t.each j ∙ ground arith }

  -- `notify_alarm` makes exactly the queued processes whose alarm is due run again.
  pub notify_alarm-Woken :
      (clock : ℕ)
      → Woken
          (alarm_due clock)
          (λ p. record p { waiting_on_clock = 0; status = running })
          k
          (notify_alarm clock k)
  unfolding notify_alarm wake_alarm
  notify_alarm-Woken clock =
      let t = each_process-Touched (wake_alarm clock) k v d in
      record { after = t.pcbs; result = t.result; each = λ j. t.each j ∙ ground arith }

-- The first of `ps` whose block passes the test.
abbrev pub first : (Pcb → Bool) → (ℕ → Pcb) → List ℕ → Option ℕ
first test pcbs [] = none
first test pcbs (p ∷ ps) = if test (pcbs p) then some p else first test pcbs ps

find_from-first :
    (k n : ℕ) (test : Pcb → Bool) (slots : ℕ → ℕ) (ptr tail : ℕ) (pcbs : ℕ → Pcb)
    → ptr < process_queue_size
    → tail < process_queue_size
    → n ≡ (tail + process_queue_size - ptr) % process_queue_size
    → n < k
    → find_from k test slots ptr tail pcbs
      ≡ some (first test pcbs (window process_queue_size slots ptr n))
unfolding find_from
find_from-first zero n test slots ptr tail pcbs p t e fuel = absurd (omega arith)
find_from-first (suc k) zero test slots ptr tail pcbs p t e fuel =
    let stop : (ptr == tail) ≡ true = eq→== _ _ (omega arith) in rw stop
find_from-first (suc k) (suc n) test slots ptr tail pcbs p t e fuel =
    let go : (ptr == tail) ≡ false = ne→== _ _ (omega arith) in
    let rest =
      find_from-first k n test slots (advance ptr) tail pcbs (omega arith) t (omega arith)
        (omega arith) in
    rw go (
      step (test (pcbs (slots ptr))) rest
      ∙ ap (λ ps. some (first test pcbs ps)) (sym (window_step slots ptr tail n p t)))
  where
    step :
        (b : Bool) {o : Option (Option ℕ)} {q : Option ℕ}
        → o ≡ some q
        → (if b then some (some (slots ptr)) else o) ≡ some (if b then some (slots ptr) else q)
    step true e = refl
    step false e = e

-- `find_process` ends with the first queued process that passes the test, and with `NULL` if
-- there is none.
pub find_process-first :
    (test : Pcb → Bool) (k : Kernel)
    → InBounds k
    → find_process test k ≡ some (first test k.pcbs (contents k))
unfolding find_process
find_process-first test k v =
    find_from-first process_queue_size (queue_length k) test k.slots k.head k.tail k.pcbs v.head_in
      v.tail_in refl (omega arith)

abbrev pub has_pid : ℕ → Pcb → Bool
has_pid pid p = as_uint64 p.pid == pid

abbrev pub killed : Kernel → Option ℕ → ℕ × Kernel
killed k none = (1, k)
killed k (some p) =
    (0, record k { pcbs = update k.pcbs p (record (k.pcbs p) { status = finished }) })

-- `kill_pid` marks the first queued process with the id as finished, and returns 0; if there is
-- none it changes nothing, and returns 1.
pub kill_pid-killed :
    (pid : ℕ) (k : Kernel)
    → InBounds k
    → kill_pid pid k ≡ some (killed k (first (has_pid pid) k.pcbs (contents k)))
unfolding kill_pid
kill_pid-killed pid k v = elim (Option-cases (first (has_pid pid) k.pcbs (contents k))) [
  | inl e ↦ rw (find_process-first (has_pid pid) k v ∙ ap some e, kill_pid) (rw e)
  | inr (p, e) ↦ rw (find_process-first (has_pid pid) k v ∙ ap some e, kill_pid) (rw e)
]
