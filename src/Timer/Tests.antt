-- ===== src/Timer/Tests.antt =====
-- The tick that begins the second ten.
use my_sbuos.Base.{ℕ, ◌≡◌, refl, some, List, [], arith}
use my_sbuos.Process.Sample.{sample_block, sample_kernel}
use my_sbuos.Process.{Kernel, Pcb, waiting, notify_alarm, each_process, each_from}
use my_sbuos.Timer.{Timer, tick_count}
use my_sbuos.Timer.Sleep.{Wakes, tick_count-Wakes}
use my_sbuos.Timer.Clock.{InStep, seconds_shown, tick_count-InStep}

abbrev block : Pcb
block = sample_block 0

abbrev kernel : Kernel
kernel = sample_kernel block

abbrev timer : Timer
timer = record { clk = 1; ticks = 10 }

notify_alarm-kernel : notify_alarm 11 kernel ≡ some kernel
unfolding notify_alarm each_process each_from
notify_alarm-kernel = refl

tick_count-InStep_example :
    (t' : Timer) × (shown : List ℕ) × (tick_count timer kernel [] ≡ some (1, t', kernel, shown))
    × InStep t'
    × (t'.ticks ≡ 11)
    × (seconds_shown shown ≡ t'.clk)
tick_count-InStep_example =
    tick_count-InStep timer kernel kernel [] (omega arith, omega arith) (omega arith)
      notify_alarm-kernel

abbrev sleepers : Kernel
sleepers = record kernel {
  pcbs = λ p. record block { status = waiting; waiting_on_clock = 12 };
  slots = λ i. 2;
  head = 0;
  tail = 1;
}

tick_count-Wakes_example : Wakes 4 2 timer sleepers []
tick_count-Wakes_example =
    tick_count-Wakes 4 2 12 timer sleepers []
      (record { head_in = omega arith; tail_in = omega arith }) (tt, tt) refl (refl, refl)
      (omega arith) (omega arith) (omega arith) (omega arith)
