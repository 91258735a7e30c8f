-- ===== src/Process/Queue.antt =====
-- The circular array of `pcb_list` is a queue of at most 99 processes.
use my_sbuos.Base.{
  ℕ, suc, ◌+◌, ◌-◌, ◌%◌, ◌<◌, ◌≡◌, refl, sym, ap, ◌∙◌, inl, inr, false, List, [], ◌∷◌, ◌++◌,
  append-nil, arith, if◌then◌else◌, Bool-cases, length, update,
}
use my_sbuos.Base.Ring.{window, length-window, window-snoc, window-cons}
use my_sbuos.Process.{
  process_queue_size, Kernel, advance, is_finished, enqueue_process, process_init,
}

-- how many slots are in use
abbrev pub queue_length : Kernel → ℕ
queue_length k = (k.tail + process_queue_size - k.head) % process_queue_size

-- the processes in the queue, the next one first
abbrev pub contents : Kernel → List ℕ
contents k = window process_queue_size k.slots k.head (queue_length k)

pub record InBounds (k : Kernel) : Type 0 where
  pub head_in : k.head < process_queue_size
  pub tail_in : k.tail < process_queue_size

-- `process_init` leaves an empty queue inside its bounds.
pub process_init-empty : (k : Kernel) → InBounds (process_init k) × (contents (process_init k) ≡ [])
unfolding process_init
process_init-empty k = (omega arith, refl)

abbrev pub queued : Kernel → ℕ → List ℕ
queued k p = if is_finished (k.pcbs p).status then [] else p ∷ []

pub enqueue_process-InBounds : (k : Kernel) (p : ℕ) → InBounds k → InBounds (enqueue_process k p)
unfolding enqueue_process
enqueue_process-InBounds k p v = ground arith

-- While fewer than 99 processes are queued, `enqueue_process` puts a process that is not finished
-- at the end, and leaves the queue alone otherwise.
pub contents-enqueue_process :
    (k : Kernel) (p : ℕ)
    → InBounds k
    → queue_length k < 99
    → contents (enqueue_process k p) ≡ contents k ++ queued k p
unfolding enqueue_process
contents-enqueue_process k p v room = elim (Bool-cases (is_finished (k.pcbs p).status)) [
  | inl e ↦ rw e (sym (append-nil (contents k)))
  | inr e ↦ rw e (
      ap (window process_queue_size (update k.slots k.tail p) k.head) longer
      ∙ window-snoc process_queue_size k.slots k.head (queue_length k) k.tail p v.head_in
          (omega arith) (omega arith))
]
  where
    longer :
        (advance k.tail + process_queue_size - k.head) % process_queue_size ≡ suc (queue_length k)
    longer = omega arith

-- The hundredth process makes the full queue read as empty.
pub contents-enqueue_process_full :
    (k : Kernel) (p : ℕ)
    → InBounds k
    → queue_length k ≡ 99
    → is_finished (k.pcbs p).status ≡ false
    → contents (enqueue_process k p) ≡ []
unfolding enqueue_process
contents-enqueue_process_full k p v full alive =
    rw alive (ap (window process_queue_size (update k.slots k.tail p) k.head) none_left)
  where
    none_left : (advance k.tail + process_queue_size - k.head) % process_queue_size ≡ 0
    none_left = omega arith

-- The first process of a queue that is not empty stands at `head`, and advancing `head` drops it.
pub contents-cons :
    (k : Kernel)
    → InBounds k
    → 0 < queue_length k
    → contents k ≡ k.slots k.head ∷ contents (record k { head = advance k.head })
contents-cons k v more =
    ap (window process_queue_size k.slots k.head) shorter
    ∙ window-cons process_queue_size k.slots k.head
        (queue_length (record k { head = advance k.head })) v.head_in
    ∙ ap
        (λ h.
          k.slots k.head
          ∷ window process_queue_size k.slots h (queue_length (record k { head = advance k.head })))
        same_head
  where
    shorter : queue_length k ≡ suc (queue_length (record k { head = advance k.head }))
    shorter = omega arith

    same_head : (k.head + 1) % process_queue_size ≡ advance k.head
    same_head = omega arith

pub length-contents : (k : Kernel) → length (contents k) ≡ queue_length k
length-contents k = length-window process_queue_size k.slots k.head (queue_length k)

-- The process at `head` of a queue that holds `x ∷ xs` is `x`.
pub contents-pop :
    (k : Kernel) (x : ℕ) (xs : List ℕ)
    → InBounds k
    → contents k ≡ x ∷ xs
    → (k.slots k.head ≡ x) × (contents (record k { head = advance k.head }) ≡ xs)
contents-pop k x xs v e =
    let more : 0 < queue_length k = omega (arith, length-contents k, ap length e) in
    let split = sym (contents-cons k v more) ∙ e in (cc split, cc split)
