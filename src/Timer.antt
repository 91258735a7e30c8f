-- ===== src/Timer.antt =====
-- sys/timer_helpers.c: the clock that is shown and the tick that wakes sleepers.
pub mod Clock
pub mod Sleep
mod Tests
use my_sbuos.Base.{
  ℕ, zero, suc, ◌+◌, ◌-◌, ◌*◌, ◌/◌, ◌%◌, ◌^◌, ◌≤◌, ◌<◌, ◌≡◌, refl, sym, ap, ap₂, ◌∙◌, ◌≢◌, ◌⊎◌, inl,
  inr, Bool, true, false, not, ◌&&◌, ◌||◌, Option, none, some, List, [], ◌∷◌, ◌++◌, map, append-nil,
  append_assoc, arith, ltb, leb, ◌==◌, if◌then◌else◌, Bool-cases, Option-cases, ◌>>=◌, ltb→lt,
  lt→ltb, leb→le, eq→==, ne→==, ==_iff, length, get_or, length-append, All, All-append, NotIn,
  Distinct, NotIn-append, Distinct-snoc, mem, NotIn-of_mem, mem_of_NotIn, mem-append, update,
  update_self, update_other, Holds, Holds-agree, Holds-append, Holds-append_left,
  Holds-append_right, subst,
}
use my_sbuos.Process.{Kernel, notify_alarm}

abbrev pub print_tick_divide : ℕ
print_tick_divide = 10

abbrev pub alarm_tick_divide : ℕ
alarm_tick_divide = 3

-- `clk` and `ticks` are `uint64_t`.
pub record Timer : Type 0 where
  pub clk : ℕ
  pub ticks : ℕ

-- A `char` holds the low byte of what is stored in it.
abbrev pub char : ℕ → ℕ
char n = (48 + n) % 256

-- The seven characters of the time.
unfoldable pub print_clk : (h m s : ℕ) → List ℕ
print_clk h m s =
    char h ∷ 58 ∷ char (m / 10) ∷ char (m % 10) ∷ 58 ∷ char (s / 10) ∷ char (s % 10) ∷ []

-- The timer, the processes, and `print_time` with the characters that are shown.
unfoldable pub tick_count : Timer → Kernel → List ℕ → Option (ℕ × Timer × Kernel × List ℕ)
tick_count t k buff =
    let ticks = (t.ticks + 1) % 2 ^ 64 in
    let clk = (t.clk + 1) % 2 ^ 64 in
    let alarmed = if ticks % alarm_tick_divide == 1 then notify_alarm ticks k else some k in
    alarmed >>= λ k'. some (
      if ticks % print_tick_divide == 1
      then (
        1,
        record { clk = clk; ticks = ticks },
        k',
        print_clk (clk / 3600) (clk % 3600 / 60) (clk % 60),
      )
      else (0, record t { ticks = ticks }, k', buff))

pub timer_get_clock : Timer → ℕ
timer_get_clock t = t.ticks
