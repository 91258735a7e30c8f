-- ===== src/Timer/Clock.antt =====
-- The clock over many ticks, and the time that is shown.
use my_sbuos.Base.{
  ℕ, ◌+◌, ◌-◌, ◌*◌, ◌/◌, ◌%◌, ◌^◌, ◌<◌, ◌≡◌, refl, inl, inr, some, List, arith, ◌==◌, if◌then◌else◌,
  Bool-cases, ==_iff, get_or,
}
use my_sbuos.Process.{Kernel, notify_alarm}
use my_sbuos.Timer.{Timer, print_clk, tick_count}

-- The clock counts the ticks by tens, the first of each ten.
abbrev pub InStep : Timer → Type 0
InStep t = (t.clk ≡ (t.ticks + 9) / 10) × (t.ticks < 2 ^ 64 - 1)

-- What the characters of a time say, in seconds.
abbrev pub seconds_shown : List ℕ → ℕ
seconds_shown cs =
    3600 * (get_or cs 0 0 - 48)
    + 60 * (10 * (get_or cs 2 0 - 48) + (get_or cs 3 0 - 48))
    + (10 * (get_or cs 5 0 - 48) + (get_or cs 6 0 - 48))

print_clk-seconds :
    (clk : ℕ)
    → clk < 36000
    → seconds_shown (print_clk (clk / 3600) (clk % 3600 / 60) (clk % 60)) ≡ clk
unfolding print_clk
print_clk-seconds clk h = omega arith

-- Below ten hours, and when `notify_alarm` returns, a tick keeps the clock in step with the ticks, calls
-- `notify_alarm` on every third tick only, and shows the clock exactly on the first tick of each ten, where the characters say it.
pub tick_count-InStep :
    (t : Timer) (k k' : Kernel) (buff : List ℕ)
    → InStep t
    → t.ticks < 359990
    → notify_alarm (t.ticks + 1) k ≡ some k'
    → (t' : Timer) × (shown : List ℕ) × (tick_count t k buff
        ≡ some (
          if (t.ticks + 1) % 10 == 1 then 1 else 0,
          t',
          if (t.ticks + 1) % 3 == 1 then k' else k,
          shown,
        ))
      × InStep t'
      × (t'.ticks ≡ t.ticks + 1)
      × ((if (t.ticks + 1) % 10 == 1 then seconds_shown shown else t'.clk) ≡ t'.clk)
unfolding tick_count
tick_count-InStep t k k' buff step early woken =
    let wrap : (t.ticks + 1) % 2 ^ 64 ≡ t.ticks + 1 = omega (arith, early) in
    let clock_wrap : (t.clk + 1) % 2 ^ 64 ≡ t.clk + 1 = omega (arith, early, step.0) in
    elim (Bool-cases ((t.ticks + 1) % 10 == 1)) [
      | inl b ↦
          let step' : InStep (record { clk = t.clk + 1; ticks = t.ticks + 1 }) =
            (omega (arith, (==_iff _ _).0 b, step.0), omega (arith, early)) in
          let said =
            print_clk-seconds (t.clk + 1) (omega (arith, early, step.0, (==_iff _ _).0 b)) in
          elim (Bool-cases ((t.ticks + 1) % 3 == 1)) [
            | inl a ↦
                rw (wrap, clock_wrap, a, b, woken)
                  (record { clk = t.clk + 1; ticks = t.ticks + 1 }, _, refl, step', refl, said)
            | inr a ↦
                rw (wrap, clock_wrap, a, b)
                  (record { clk = t.clk + 1; ticks = t.ticks + 1 }, _, refl, step', refl, said)
          ]
      | inr b ↦
          let step' : InStep (record t { ticks = t.ticks + 1 }) =
            (ground (arith, step.0), omega (arith, early)) in
          elim (Bool-cases ((t.ticks + 1) % 3 == 1)) [
            | inl a ↦
                rw (wrap, clock_wrap, a, b, woken)
                  (record t { ticks = t.ticks + 1 }, _, refl, step', refl, refl)
            | inr a ↦
                rw (wrap, clock_wrap, a, b)
                  (record t { ticks = t.ticks + 1 }, _, refl, step', refl, refl)
          ]
    ]
