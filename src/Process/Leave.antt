-- ===== src/Process/Leave.antt =====
-- `schedule` at a process that is finished: it leaves the queue.
use my_sbuos.Base.{
  ℕ, ◌<◌, ◌≡◌, refl, sym, ap, ◌∙◌, ◌≢◌, inl, inr, true, Option, some, List, [], ◌∷◌, ◌++◌,
  append-nil, arith, ◌==◌, Bool-cases, ==_iff, length, length-append, NotIn, NotIn-append, mem,
  update, update_self, update_other, subst,
}
use my_sbuos.Process.{process_queue_size, Kernel, Pcb, finished, is_finished, is_runnable, schedule}
use my_sbuos.Process.Queue.{InBounds, queue_length, contents, queued, length-contents}
use my_sbuos.Process.Schedule.{get_next_context-Chosen, some_runnable, first_runnable, alive}

pub some_runnable-mem :
    (pcbs : ℕ → Pcb) (j : ℕ) (ps : List ℕ)
    → mem j ps ≡ true
    → is_runnable (pcbs j).status ≡ true
    → some_runnable pcbs ps ≡ true
some_runnable-mem pcbs j [] h can = absurd (cc)
some_runnable-mem pcbs j (p ∷ ps) h can = elim (Bool-cases (j == p)) [
  | inl e ↦
      let same : is_runnable (pcbs p).status ≡ true =
        subst (λ q. is_runnable (pcbs q).status ≡ true) ((==_iff _ _).0 e) can in
      ground (arith, same)
  | inr ne ↦ ground (arith, some_runnable-mem pcbs j ps (ground (arith, h, ne)) can)
]

alive-NotIn : (pcbs : ℕ → Pcb) (a : ℕ) (ps : List ℕ) → NotIn a ps → NotIn a (alive pcbs ps)
alive-NotIn pcbs a [] h = tt
alive-NotIn pcbs a (p ∷ ps) h = elim (Bool-cases (is_finished (pcbs p).status)) [
  | inl e ↦ rw e (alive-NotIn pcbs a ps h.1)
  | inr e ↦ rw e (h.0, alive-NotIn pcbs a ps h.1)
]

NotIn-parts :
    (a x : ℕ) (pre post : List ℕ) → NotIn a (pre ++ x ∷ post) → NotIn a pre × (a ≢ x) × NotIn a post
NotIn-parts a x [] post h = (tt, h.0, h.1)
NotIn-parts a x (p ∷ pre) post h = let r = NotIn-parts a x pre post h.1 in ((h.0, r.0), r.1, r.2)

-- What a switch away from a finished process leaves: it is neither active nor queued, its block keeps the
-- stack pointer `sp` of the call, and the stack pointer handed over is that of the process that runs next.
pub record Left (gone sp : ℕ) (pcbs : ℕ → Pcb) (out : Option (ℕ × Kernel)) : Type 0 where
  pub rsp : ℕ
  pub after : Kernel
  pub result : out ≡ some (rsp, after)
  pub stack : rsp ≡ (pcbs after.active).kernel_sp
  pub left_block : after.pcbs gone ≡ record (pcbs gone) { kernel_sp = sp }
  pub blocks : (j : ℕ) → j ≢ gone → after.pcbs j ≡ pcbs j
  pub active_is_not : gone ≢ after.active
  pub not_queued : NotIn gone (contents after)
  pub can : is_runnable (after.pcbs after.active).status ≡ true

some_runnable-update :
    (pcbs : ℕ → Pcb) (a : ℕ) (v : Pcb) (ps : List ℕ)
    → NotIn a ps
    → some_runnable (update pcbs a v) ps ≡ some_runnable pcbs ps
some_runnable-update pcbs a v [] h = refl
some_runnable-update pcbs a v (p ∷ ps) h =
    rw (update_other pcbs a p v (λ e. h.0 (sym e)), some_runnable-update pcbs a v ps h.1)

-- When the active process is finished and some queued process can run, `schedule` ends, and the
-- finished process is neither active nor queued; no other block changes.
pub schedule-Left :
    (rsp : ℕ) (k : Kernel)
    → InBounds k
    → queue_length k < 99
    → NotIn k.active (contents k)
    → (k.pcbs k.active).status ≡ finished
    → some_runnable k.pcbs (contents k) ≡ true
    → Left k.active rsp k.pcbs (schedule process_queue_size rsp k)
unfolding schedule
schedule-Left rsp k v room alone gone h =
    let b = k.pcbs k.active in
    let block : Pcb = record b { kernel_sp = rsp } in
    let saved : Kernel = record k { pcbs = update k.pcbs k.active block } in
    let at : saved.pcbs k.active ≡ block = update_self k.pcbs k.active block in
    let none_queued : queued saved k.active ≡ [] = rw (at, gone) in
    let s =
      first_runnable saved.pcbs (contents k)
        (some_runnable-update k.pcbs k.active block (contents k) alone ∙ h) in
    let split : contents saved ++ queued saved k.active ≡ s.pre ++ s.x ∷ s.post =
      rw none_queued (append-nil (contents k) ∙ s.same) in
    let short : length s.pre < process_queue_size =
      omega (arith, ap length s.same, length-append s.pre (s.x ∷ s.post), length-contents k) in
    let c =
      get_next_context-Chosen process_queue_size saved s.pre s.post s.x
        (record { head_in = v.head_in; tail_in = v.tail_in }) room split s.idle s.can short in
    let parts = NotIn-parts k.active s.x s.pre s.post (subst (NotIn k.active) s.same alone) in
    record {
      rsp = (c.after.pcbs c.after.active).kernel_sp;
      after = c.after;
      result = rw c.result;
      stack =
          ap (λ (f : ℕ → Pcb). (f c.after.active).kernel_sp) c.blocks
          ∙ ap (λ (q : Pcb). q.kernel_sp)
              (update_other k.pcbs k.active c.after.active block
                (λ e. parts.1 (sym e ∙ c.active_is)));
      left_block = ap (λ (f : ℕ → Pcb). f k.active) c.blocks ∙ at;
      blocks = λ j ne. ap (λ (f : ℕ → Pcb). f j) c.blocks ∙ update_other k.pcbs k.active j block ne;
      active_is_not = λ e. parts.1 (e ∙ c.active_is);
      not_queued = subst (NotIn k.active) (sym c.queue) (
          NotIn-append k.active s.post (alive saved.pcbs s.pre) parts.2
            (alive-NotIn saved.pcbs k.active s.pre parts.0));
      can = rw (c.blocks, c.active_is) s.can;
    }
