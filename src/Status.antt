-- ===== src/Status.antt =====
-- sys/unix_helpers.c: the status line, row 23 of the screen, with the last key and the time.
pub mod Row
mod Tests
use my_sbuos.Base.{
  ℕ, zero, suc, ◌+◌, ◌-◌, ◌*◌, ◌/◌, ◌%◌, ◌^◌, ◌≤◌, ◌<◌, ◌≡◌, refl, sym, ap, ap₂, ◌∙◌, ◌≢◌, ◌⊎◌, inl,
  inr, Bool, true, false, not, ◌&&◌, ◌||◌, Option, none, some, List, [], ◌∷◌, ◌++◌, map, append-nil,
  append_assoc, arith, ltb, leb, ◌==◌, if◌then◌else◌, Bool-cases, Option-cases, ◌>>=◌, ltb→lt,
  lt→ltb, leb→le, eq→==, ne→==, ==_iff, length, get_or, length-append, All, All-append, NotIn,
  Distinct, NotIn-append, Distinct-snoc, mem, NotIn-of_mem, mem_of_NotIn, mem-append, update,
  update_self, update_other, Holds, Holds-agree, Holds-append, Holds-append_left,
  Holds-append_right, subst,
}
use my_sbuos.Process.{Kernel}
use my_sbuos.Keyboard.{Keys, keyboard_feed}
use my_sbuos.Timer.{Timer, tick_count}
use my_sbuos.Console.{cell}

-- Each character followed by a zero byte.
pub put_glyphs : List ℕ → (position : ℕ) → (ℕ → ℕ) → ℕ → ℕ
put_glyphs [] position d = d
put_glyphs (c ∷ cs) position d =
    put_glyphs cs (position + 2) (update (update d position c) (position + 1) 0)

-- The characters before the terminating zero.
pub before_zero : List ℕ → List ℕ
before_zero [] = []
before_zero (c ∷ cs) = let rest = before_zero cs in if c == 0 then [] else c ∷ rest

-- The driver's state, the glyph buffer and the display.
pub put_pressed_key :
    (key : ℕ) → Keys → (glyph_buffer : List ℕ) → (ℕ → ℕ) → Option (Keys × List ℕ × (ℕ → ℕ))
put_pressed_key key s glyph_buffer d = keyboard_feed key s glyph_buffer >>= λ r.
    some (r.1, r.2, if r.0 == 0 then d else put_glyphs r.2 (cell 23 48) d)

pub put_time_since_boot :
    Timer → Kernel → (time_buffer : List ℕ) → (ℕ → ℕ) → Option (Timer × Kernel × List ℕ × (ℕ → ℕ))
put_time_since_boot t k time_buffer d = tick_count t k time_buffer >>= λ r.
    some (r.1, r.2, r.3, if r.0 == 0 then d else put_glyphs (before_zero r.3) (cell 23 56) d)
