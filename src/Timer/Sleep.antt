-- ===== src/Timer/Sleep.antt =====
-- How long a sleeping process sleeps.
use my_sbuos.Base.{
  ℕ, zero, suc, ◌+◌, ◌-◌, ◌/◌, ◌%◌, ◌^◌, ◌≤◌, ◌<◌, ◌≡◌, refl, inl, inr, Bool, true, false, ◌&&◌,
  Option, some, List, arith, ltb, leb, ◌==◌, if◌then◌else◌, Bool-cases, ◌>>=◌, Distinct, mem,
}
use my_sbuos.Process.{Kernel, Pcb, running, waiting}
use my_sbuos.Process.Queue.{InBounds, contents}
use my_sbuos.Process.Notify.{alarm_due, notify_alarm-Woken}
use my_sbuos.Timer.{Timer, tick_count, print_clk}

abbrev pub woken : Pcb → Pcb
woken p = record p { waiting_on_clock = 0; status = running }

-- A tick, and what it does to the blocks.
record Ticked (t : Timer) (k : Kernel) (buff : List ℕ) : Type 0 where
  shown : ℕ
  timer : Timer
  after : ℕ → Pcb
  text : List ℕ
  result : tick_count t k buff ≡ some (shown, timer, record k { pcbs = after }, text)
  ticks : timer.ticks ≡ t.ticks + 1
  each :
      (j : ℕ)
      → after j ≡ (
          if ((t.ticks + 1) % 3 == 1) && (mem j (contents k) && alarm_due (t.ticks + 1) (k.pcbs j))
          then woken (k.pcbs j)
          else k.pcbs j)

tick_count-Ticked :
    (t : Timer) (k : Kernel) (buff : List ℕ)
    → InBounds k
    → Distinct (contents k)
    → t.ticks + 1 < 2 ^ 64
    → Ticked t k buff
unfolding tick_count
tick_count-Ticked t k buff v d room =
    let wrap : (t.ticks + 1) % 2 ^ 64 ≡ t.ticks + 1 = omega (arith, room) in
    let w = notify_alarm-Woken k v d (t.ticks + 1) in
    let clk = (t.clk + 1) % 2 ^ 64 in
    let full : Timer = record { clk = clk; ticks = t.ticks + 1 } in
    let half : Timer = record t { ticks = t.ticks + 1 } in
    let text = print_clk (clk / 3600) (clk % 3600 / 60) (clk % 60) in
    elim (Bool-cases ((t.ticks + 1) % 3 == 1)) [
      | inl a ↦ elim (Bool-cases ((t.ticks + 1) % 10 == 1)) [
        | inl b ↦ record {
          shown = 1;
          timer = full;
          after = w.after;
          text = text;
          result = rw (wrap, a, b, w.result) refl;
          ticks = refl;
          each = λ j. rw a (w.each j);
        }
        | inr b ↦ record {
          shown = 0;
          timer = half;
          after = w.after;
          text = buff;
          result = rw (wrap, a, b, w.result) refl;
          ticks = refl;
          each = λ j. rw a (w.each j);
        }
      ]
      | inr a ↦ elim (Bool-cases ((t.ticks + 1) % 10 == 1)) [
        | inl b ↦ record {
          shown = 1;
          timer = full;
          after = k.pcbs;
          text = text;
          result = rw (wrap, a, b) refl;
          ticks = refl;
          each = λ j. rw a refl;
        }
        | inr b ↦ record {
          shown = 0;
          timer = half;
          after = k.pcbs;
          text = buff;
          result = rw (wrap, a, b) refl;
          ticks = refl;
          each = λ j. rw a refl;
        }
      ]
    ]

-- `n` ticks one after the other.
abbrev pub tick_many : (n : ℕ) → Timer → Kernel → List ℕ → Option (Timer × Kernel × List ℕ)
tick_many zero t k buff = some (t, k, buff)
tick_many (suc n) t k buff = tick_count t k buff >>= λ r. tick_many n r.1 r.2 r.3

abbrev pub Awake : Pcb → Type 0
Awake p = (p.status ≡ running) × (p.waiting_on_clock ≡ 0)

abbrev pub Sleeps : (w : ℕ) → Pcb → Type 0
Sleeps w p = (p.status ≡ waiting) × (p.waiting_on_clock ≡ w)

-- The ticks end, with the process `j` awake.
abbrev pub Wakes : (n j : ℕ) → Timer → Kernel → List ℕ → Type 0
Wakes n j t k buff =
    (t' : Timer) × (k' : Kernel) × (buff' : List ℕ) × (tick_many n t k buff ≡ some (t', k', buff'))
    × Awake (k'.pcbs j)

woken_still :
    (b c : Bool) (clock : ℕ) (p : Pcb)
    → Awake p
    → Awake (if b && (c && alarm_due clock p) then woken p else p)
woken_still false c clock p h = h
woken_still true false clock p h = h
woken_still true true clock p h = let idle : alarm_due clock p ≡ false = rw h.0 refl in rw idle h

alarm_due-Sleeps : (w clock : ℕ) (p : Pcb) → Sleeps w p → 0 < w → alarm_due clock p ≡ leb w clock
alarm_due-Sleeps w clock p h pos =
    let set : ltb 0 w ≡ true = ground (arith, pos) in rw (h.0, h.1, set) refl

-- a change of the blocks alone
same_bounds : (k : Kernel) (pcbs : ℕ → Pcb) → InBounds k → InBounds (record k { pcbs = pcbs })
same_bounds k pcbs v = record { head_in = v.head_in; tail_in = v.tail_in }

tick_before :
    (n j : ℕ) (t : Timer) (k : Kernel) (buff : List ℕ) (r : Ticked t k buff)
    → Wakes n j r.timer (record k { pcbs = r.after }) r.text
    → Wakes (suc n) j t k buff
tick_before n j t k buff r h = (h.0, h.1, h.2, rw r.result h.3, h.4)

still_running :
    (n j : ℕ) (t : Timer) (k : Kernel) (buff : List ℕ)
    → InBounds k
    → Distinct (contents k)
    → t.ticks + n < 2 ^ 64
    → Awake (k.pcbs j)
    → Wakes n j t k buff
still_running zero j t k buff v d room h = (t, k, buff, refl, h)
still_running (suc n) j t k buff v d room h =
    let r = tick_count-Ticked t k buff v d (omega (arith, room)) in
    let still : Awake (r.after j) =
      rw (r.each j)
        (woken_still ((t.ticks + 1) % 3 == 1) (mem j (contents k)) (t.ticks + 1) (k.pcbs j) h) in
    tick_before n j t k buff r (
      still_running n j r.timer (record k { pcbs = r.after }) r.text (same_bounds k r.after v) d
        (omega (arith, room, r.ticks)) still)

-- the process wakes by the tick `u` at the latest
alarm_rings :
    (n j w u : ℕ) (t : Timer) (k : Kernel) (buff : List ℕ)
    → InBounds k
    → Distinct (contents k)
    → mem j (contents k) ≡ true
    → Sleeps w (k.pcbs j)
    → 0 < w
    → t.ticks + n < 2 ^ 64
    → u % 3 ≡ 1
    → w ≤ u
    → t.ticks < u
    → u ≤ t.ticks + n
    → Wakes n j t k buff
alarm_rings zero j w u t k buff v d queued h pos room third due late soon =
    absurd (omega (arith, late, soon))
alarm_rings (suc n) j w u t k buff v d queued h pos room third due late soon =
    let r = tick_count-Ticked t k buff v d (omega (arith, room)) in
    let k' = record k { pcbs = r.after } in
    let v' = same_bounds k r.after v in
    let due_now = alarm_due-Sleeps w (t.ticks + 1) (k.pcbs j) h pos in
    let room' : r.timer.ticks + n < 2 ^ 64 = omega (arith, room, r.ticks) in
    tick_before n j t k buff r
      (elim (Bool-cases (((t.ticks + 1) % 3 == 1) && leb w (t.ticks + 1))) [
        | inl now ↦
            still_running n j r.timer k' r.text v' d room'
              (rw (r.each j, queued, due_now, now) (refl, refl))
        | inr not_now ↦
            alarm_rings n j w u r.timer k' r.text v' d queued
              (rw (r.each j, queued, due_now, not_now) h) pos room' third due
              (ground (arith, not_now, late, third, due, r.ticks)) (omega (arith, soon, r.ticks))
      ])

-- A process that is queued and waits for an alarm at the tick `w` is awake after `n` ticks in a row,
-- three at least, that go on to the second tick behind `w` at the least; every tick returns.
pub tick_count-Wakes :
    (n j w : ℕ) (t : Timer) (k : Kernel) (buff : List ℕ)
    → InBounds k
    → Distinct (contents k)
    → mem j (contents k) ≡ true
    → Sleeps w (k.pcbs j)
    → 0 < w
    → t.ticks + n < 2 ^ 64
    → 3 ≤ n
    → w + 2 ≤ t.ticks + n
    → Wakes n j t k buff
tick_count-Wakes n j w t k buff v d queued h pos room some_ticks far =
    let last = t.ticks + n in
    let u = last - (last + 2) % 3 in
    alarm_rings n j w u t k buff v d queued h pos room (omega (arith, some_ticks))
      (omega (arith, far, some_ticks)) (omega (arith, some_ticks)) (omega arith)
