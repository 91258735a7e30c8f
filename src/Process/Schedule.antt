-- ===== src/Process/Schedule.antt =====
-- `get_next_context`: the queue is rotated to the first process that can run.
use my_sbuos.Base.{
  ℕ, zero, suc, ◌+◌, ◌%◌, ◌^◌, ◌≤◌, ◌<◌, ◌≡◌, refl, sym, ap, ap₂, ◌∙◌, inl, inr, Bool, true, false,
  not, ◌||◌, Option, none, some, List, [], ◌∷◌, ◌++◌, append-nil, append_assoc, arith, ltb,
  if◌then◌else◌, Bool-cases, length, length-append, All,
}
use mathlib.Core.Option
use my_sbuos.Process.{
  process_queue_size, Kernel, Pcb, advance, is_finished, is_runnable, enqueue_process, load_context,
  rotate, get_next_context, schedule, preempt, time_slice_limit,
}
use my_sbuos.Process.Queue.{
  queue_length, contents, queued, InBounds, enqueue_process-InBounds, contents-enqueue_process,
  contents-pop, length-contents,
}

-- the processes of `ps` that are not finished
abbrev pub alive : (ℕ → Pcb) → List ℕ → List ℕ
alive pcbs [] = []
alive pcbs (p ∷ ps) = if is_finished (pcbs p).status then alive pcbs ps else p ∷ alive pcbs ps

-- One rotation, when the queue with the active process behind it holds `y ∷ rest`.
record Rotated (k : Kernel) (y : ℕ) (rest : List ℕ) : Type 0 where
  in_bounds : InBounds (rotate k)
  room : queue_length (rotate k) < 99
  active_is : (rotate k).active ≡ y
  queue : contents (rotate k) ≡ rest
  blocks : (rotate k).pcbs ≡ k.pcbs

pcbs-enqueue_process : (k : Kernel) (p : ℕ) → (enqueue_process k p).pcbs ≡ k.pcbs
unfolding enqueue_process
pcbs-enqueue_process k p = ground arith

pub length-queued : (k : Kernel) (p : ℕ) → length (queued k p) ≤ 1
length-queued k p = ground arith

rotate-Rotated :
    (k : Kernel) (y : ℕ) (rest : List ℕ)
    → InBounds k
    → queue_length k < 99
    → contents k ++ queued k k.active ≡ y ∷ rest
    → Rotated k y rest
unfolding rotate
rotate-Rotated k y rest v room split =
    let filled = enqueue_process k k.active in
    let v' = enqueue_process-InBounds k k.active v in
    let (at_head, behind) =
      contents-pop filled y rest v' (contents-enqueue_process k k.active v room ∙ split) in
    record {
      in_bounds = record { head_in = omega arith; tail_in = v'.tail_in };
      room = omega (
        arith,
        length-contents k,
        length-contents (record filled { head = advance filled.head }),
        ap length behind,
        ap length split,
        length-append (contents k) (queued k k.active),
        length-queued k k.active,
      );
      active_is = at_head;
      queue = behind;
      blocks = pcbs-enqueue_process k k.active;
    }

-- The choice of `x` with the queue `left` behind it, its address space and stack loaded.
pub record Chosen (pcbs : ℕ → Pcb) (x : ℕ) (left : List ℕ) (out : Option Kernel) : Type 0 where
  pub after : Kernel
  pub result : out ≡ some after
  pub in_bounds : InBounds after
  pub queue : contents after ≡ left
  pub active_is : after.active ≡ x
  pub blocks : after.pcbs ≡ pcbs
  pub loaded : (after.cr3 ≡ (pcbs x).pml4) × (after.rsp0 ≡ ((pcbs x).kernel_stack + 4096) % 2 ^ 64)
  pub slice : after.time_slice ≡ 0

load_context-Chosen :
    (pcbs : ℕ → Pcb) (x : ℕ) (left : List ℕ) (k : Kernel)
    → InBounds k
    → contents k ≡ left
    → k.active ≡ x
    → k.pcbs ≡ pcbs
    → Chosen pcbs x left (some (load_context k))
unfolding load_context
load_context-Chosen pcbs x left k v q a b = record {
  after = load_context k;
  result = refl;
  in_bounds = record { head_in = v.head_in; tail_in = v.tail_in };
  queue = q;
  active_is = a;
  blocks = b;
  loaded = (rw (a, b), rw (a, b));
  slice = refl;
}

-- A caller higher up loads the same process once more.
reload-Chosen :
    {pcbs pcbs' : ℕ → Pcb} {x : ℕ} {left left' : List ℕ} {out : Option Kernel}
    → left ≡ left'
    → pcbs ≡ pcbs'
    → Chosen pcbs x left out
    → Chosen pcbs' x left' (Option.map load_context out)
reload-Chosen {pcbs'} {x} {left'} e b c =
    rw c.result (
      load_context-Chosen pcbs' x left' c.after c.in_bounds (c.queue ∙ e) c.active_is
        (c.blocks ∙ b))

abbrev queued_of : (ℕ → Pcb) → ℕ → List ℕ
queued_of pcbs p = if is_finished (pcbs p).status then [] else p ∷ []

regroup :
    (post : List ℕ) (pcbs : ℕ → Pcb) (p : ℕ) (pre : List ℕ)
    → (post ++ queued_of pcbs p) ++ alive pcbs pre ≡ post ++ alive pcbs (p ∷ pre)
regroup post pcbs p pre = elim (Bool-cases (is_finished (pcbs p).status)) [
  | inl e ↦ rw (e, append-nil)
  | inr e ↦ rw (e, append_assoc)
]

-- When a process can run, `get_next_context` ends and chooses the first such process of the queue
-- with the active one behind it. The processes before it that are not finished go, in order, to
-- the end of the queue, and the finished ones leave it. No block changes; `cr3`, `rsp0` and
-- `time_slice` are set for the chosen process. Before the call the queue has a free place.
pub get_next_context-Chosen :
    (f : ℕ) (k : Kernel) (pre post : List ℕ) (x : ℕ)
    → InBounds k
    → queue_length k < 99
    → contents k ++ queued k k.active ≡ pre ++ x ∷ post
    → All (λ p. is_runnable (k.pcbs p).status ≡ false) pre
    → is_runnable (k.pcbs x).status ≡ true
    → length pre < f
    → Chosen k.pcbs x (post ++ alive k.pcbs pre) (get_next_context f k)
unfolding get_next_context
get_next_context-Chosen zero k pre post x v room split idle can fuel = absurd (omega arith)
get_next_context-Chosen (suc f) k [] post x v room split idle can fuel =
    let r = rotate-Rotated k x post v room split in
    let test : is_runnable ((rotate k).pcbs (rotate k).active).status ≡ true =
      rw (r.active_is, r.blocks) can in
    rw test (
      load_context-Chosen k.pcbs x (post ++ []) (rotate k) r.in_bounds
        (r.queue ∙ sym (append-nil post)) r.active_is r.blocks)
get_next_context-Chosen (suc f) k (p ∷ pre) post x v room split idle can fuel =
    let r = rotate-Rotated k p (pre ++ x ∷ post) v room split in
    let test : is_runnable ((rotate k).pcbs (rotate k).active).status ≡ false =
      rw (r.active_is, r.blocks) idle.0 in
    let again =
      ap₂ (λ (c : List ℕ) (q : List ℕ). c ++ q) r.queue (ap₂ queued_of r.blocks r.active_is)
      ∙ append_assoc pre (x ∷ post) (queued k p) in
    let deeper =
      get_next_context-Chosen f (rotate k) pre (post ++ queued k p) x r.in_bounds r.room again
        (rw r.blocks idle.1) (rw r.blocks can) (omega arith) in
    rw test (
      reload-Chosen
        (ap₂ (λ (q : List ℕ) (b : ℕ → Pcb). q ++ alive b pre) refl r.blocks
          ∙ regroup post k.pcbs p pre)
        r.blocks deeper)

-- A list that holds a process that can run splits at the first such process.
pub record Split (pcbs : ℕ → Pcb) (ps : List ℕ) : Type 0 where
  pub pre : List ℕ
  pub x : ℕ
  pub post : List ℕ
  pub same : ps ≡ pre ++ x ∷ post
  pub idle : All (λ p. is_runnable (pcbs p).status ≡ false) pre
  pub can : is_runnable (pcbs x).status ≡ true

abbrev pub some_runnable : (ℕ → Pcb) → List ℕ → Bool
some_runnable pcbs [] = false
some_runnable pcbs (p ∷ ps) = is_runnable (pcbs p).status || some_runnable pcbs ps

pub first_runnable : (pcbs : ℕ → Pcb) (ps : List ℕ) → some_runnable pcbs ps ≡ true → Split pcbs ps
first_runnable pcbs [] h = absurd (cc)
first_runnable pcbs (p ∷ ps) h = elim (Bool-cases (is_runnable (pcbs p).status)) [
  | inl can ↦ record { pre = []; x = p; post = ps; same = refl; idle = tt; can = can }
  | inr not ↦
      let s = first_runnable pcbs ps (ground arith) in
      record {
        pre = p ∷ s.pre;
        x = s.x;
        post = s.post;
        same = ap (λ t. p ∷ t) s.same;
        idle = (not, s.idle);
        can = s.can;
      }
]

-- With a process in the queue that can run, or the active one able to, `get_next_context` ends
-- within a hundred nested calls, and chooses a process that can run.
pub get_next_context_total :
    (k : Kernel)
    → InBounds k
    → queue_length k < 99
    → some_runnable k.pcbs (contents k ++ queued k k.active) ≡ true
    → (k' : Kernel) × (get_next_context process_queue_size k ≡ some k')
      × (is_runnable (k'.pcbs k'.active).status ≡ true)
      × (k'.cr3 ≡ (k'.pcbs k'.active).pml4)
      × InBounds k'
get_next_context_total k v room h =
    let s = first_runnable k.pcbs (contents k ++ queued k k.active) h in
    let short : length s.pre < process_queue_size = omega (
      arith,
      ap length s.same,
      length-append s.pre (s.x ∷ s.post),
      length-append (contents k) (queued k k.active),
      length-queued k k.active,
      length-contents k,
    ) in
    let c =
      get_next_context-Chosen process_queue_size k s.pre s.post s.x v room s.same s.idle s.can
        short in
    (
      c.after,
      c.result,
      rw (c.blocks, c.active_is) s.can,
      rw (c.blocks, c.active_is) c.loaded.0,
      c.in_bounds,
    )

-- A context that was chosen starts a new time slice.
get_next_context-slice :
    (f : ℕ) (k : Kernel) {k' : Kernel} → get_next_context f k ≡ some k' → k'.time_slice ≡ 0
unfolding get_next_context load_context
get_next_context-slice zero k h = absurd (cc)
get_next_context-slice (suc f) k {k'} h =
    go
      (if is_runnable ((rotate k).pcbs (rotate k).active).status
        then some (rotate k)
        else get_next_context f (rotate k))
      h
  where
    go : (o : Option Kernel) → Option.map load_context o ≡ some k' → k'.time_slice ≡ 0
    go none e = absurd (cc)
    go (some c) e = ground arith

-- The time slice never exceeds its limit: `preempt` keeps that, whether or not it switches.
pub preempt-slice :
    (fuel rsp : ℕ) (k : Kernel) {rsp' : ℕ} {k' : Kernel}
    → k.time_slice ≤ time_slice_limit
    → preempt fuel rsp k ≡ some (rsp', k')
    → k'.time_slice ≤ time_slice_limit
unfolding preempt schedule
preempt-slice fuel rsp k {rsp'} {k'} h e =
    elim (Bool-cases (ltb time_slice_limit (k.time_slice + 1))) [
      | inl over ↦
          go (get_next_context fuel _) (λ c q. get_next_context-slice fuel _ q) (rw over at e)
      | inr under ↦ ground arith
    ]
  where
    go :
        (o : Option Kernel)
        → ((c : Kernel) → o ≡ some c → c.time_slice ≡ 0)
        → Option.map {B = ℕ × Kernel} (λ c. ((c.pcbs c.active).kernel_sp, c)) o ≡ some (rsp', k')
        → k'.time_slice ≤ time_slice_limit
    go none s q = absurd (cc)
    go (some c) s q = ground (arith, s c refl)
