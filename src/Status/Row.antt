-- ===== src/Status/Row.antt =====
-- What the two writers of the status line put on the screen.
use my_sbuos.Base.{
  ℕ, ◌+◌, ◌*◌, ◌%◌, ◌^◌, ◌≤◌, ◌<◌, ◌≡◌, ◌≢◌, ◌>>=◌, ne→==, refl, ◌∙◌, ◌⊎◌, inl, inr, Bool, true,
  false, Option, none, some, List, [], ◌∷◌, arith, ◌==◌, if◌then◌else◌, Bool-cases, Option-cases,
  length, update, update_self, update_other, subst,
}
use my_sbuos.Process.{Kernel, notify_alarm}
use my_sbuos.Keyboard.Glyph.{print_glyph-length}
use my_sbuos.Keyboard.Feed.{Modifier, plain, shifted, controlled, Stroke, held, bytes}
use my_sbuos.Keyboard.{Keys, print_glyph, press, keyboard_feed, initial, k_shiftdown, k_ctrldown}
use my_sbuos.Timer.{Timer, tick_count, print_clk, print_tick_divide, alarm_tick_divide}
use my_sbuos.Console.{cell}
use my_sbuos.Status.{put_glyphs, before_zero, put_pressed_key, put_time_since_boot}

-- A byte before `at` or behind the `n` cells that begin there.
abbrev pub Outside : (at n j : ℕ) → Type 0
Outside at n j = (j < at) ⊎ (at + 2 * n ≤ j)

-- The characters stand in the cells from `at` on.
abbrev pub Shown : (ℕ → ℕ) → (at : ℕ) → List ℕ → Type 0
Shown d at [] = Unit {0}
Shown d at (c ∷ cs) = (d at ≡ c) × (d (at + 1) ≡ 0) × Shown d (at + 2) cs

put_glyphs-Outside :
    (cs : List ℕ) (at : ℕ) (d : ℕ → ℕ) (j : ℕ)
    → Outside at (length cs) j
    → put_glyphs cs at d j ≡ d j
unfolding put_glyphs
put_glyphs-Outside [] at d j out = refl
put_glyphs-Outside (c ∷ cs) at d j out =
    put_glyphs-Outside cs (at + 2) (update (update d at c) (at + 1) 0) j (ground arith)
    ∙ update_other (update d at c) (at + 1) j 0 (λ e. ground arith)
    ∙ update_other d at j c (λ e. ground arith)

put_glyphs-Shown : (cs : List ℕ) (at : ℕ) (d : ℕ → ℕ) → Shown (put_glyphs cs at d) at cs
unfolding put_glyphs
put_glyphs-Shown [] at d = tt
put_glyphs-Shown (c ∷ cs) at d =
    let d' = update (update d at c) (at + 1) 0 in
    (
      put_glyphs-Outside cs (at + 2) d' at (inl (omega arith))
          ∙ update_other (update d at c) (at + 1) at 0 (omega arith)
          ∙ update_self d at c,
      put_glyphs-Outside cs (at + 2) d' (at + 1) (inl (omega arith))
          ∙ update_self (update d at c) (at + 1) 0,
      put_glyphs-Shown cs (at + 2) d',
    )

before_zero-length : (cs : List ℕ) → length (before_zero cs) ≤ length cs
unfolding before_zero
before_zero-length [] = omega arith
before_zero-length (c ∷ cs) = ground (arith, before_zero-length cs)

-- The display `d'` is `d` but for the `n` cells from `at` on, which show `cs`.
abbrev pub Drawn : (at n : ℕ) → List ℕ → (d d' : ℕ → ℕ) → Type 0
Drawn at n cs d d' = Shown d' at cs × ((j : ℕ) → Outside at n j → d' j ≡ d j)

put_glyphs-Drawn :
    (cs : List ℕ) (at n : ℕ) (d : ℕ → ℕ) → length cs ≤ n → Drawn at n cs d (put_glyphs cs at d)
put_glyphs-Drawn cs at n d fits =
    (put_glyphs-Shown cs at d, λ j out. put_glyphs-Outside cs at d j (ground (arith, out, fits)))

-- The bytes of a key and its modifier given one after the other.
abbrev pub put_all : List ℕ → Keys → List ℕ → (ℕ → ℕ) → Option (Keys × List ℕ × (ℕ → ℕ))
put_all [] s buff d = some (s, buff, d)
put_all (b ∷ bs) s buff d = put_pressed_key b s buff d >>= λ r. put_all bs r.0 r.1 r.2

put_all-stroke :
    (md : Modifier) (key up_1 up_2 char : ℕ) (buff g : List ℕ) (d : ℕ → ℕ)
    → let k : Stroke = record { modifier = md; key = key; up_1 = up_1; up_2 = up_2; char = char } in
      key ≢ k_shiftdown
      → key ≢ k_ctrldown
      → print_glyph (held k) ≡ some g
      → put_all (bytes k) initial buff d ≡ some (initial, g, put_glyphs g (cell 23 48) d)
unfolding put_pressed_key keyboard_feed press
put_all-stroke plain key up_1 up_2 char buff g d no_shift no_ctrl h =
    rw (ne→== key k_shiftdown no_shift, ne→== key k_ctrldown no_ctrl, h) refl
put_all-stroke shifted key up_1 up_2 char buff g d no_shift no_ctrl h =
    rw (ne→== key k_shiftdown no_shift, ne→== key k_ctrldown no_ctrl, h) refl
put_all-stroke controlled key up_1 up_2 char buff g d no_shift no_ctrl h =
    rw (ne→== key k_shiftdown no_shift, ne→== key k_ctrldown no_ctrl, h) refl

-- From the driver's initial state a whole stroke, alone or with shift or control, of a key with a
-- glyph ends with the driver in its initial state, the glyph in its buffer and in the four cells from
-- column 48 of row 23 on, and all other bytes of the screen as before.
pub put_pressed_key-stroke :
    (k : Stroke) (buff g : List ℕ) (d : ℕ → ℕ)
    → k.key ≢ k_shiftdown
    → k.key ≢ k_ctrldown
    → print_glyph (held k) ≡ some g
    → (d' : ℕ → ℕ) × (put_all (bytes k) initial buff d ≡ some (initial, g, d'))
      × Drawn (cell 23 48) 4 g d d'
put_pressed_key-stroke k buff g d no_shift no_ctrl h = (
  put_glyphs g (cell 23 48) d,
  put_all-stroke k.modifier k.key k.up_1 k.up_2 k.char buff g d no_shift no_ctrl h,
  put_glyphs-Drawn g (cell 23 48) 4 d (omega (arith, print_glyph-length (held k) g h)),
)

Seven : Option (ℕ × Timer × Kernel × List ℕ) → Type 0
Seven none = Unit {0}
Seven (some r) = length r.3 ≤ 7

seven_if :
    (b : Bool) (p q : ℕ × Timer × Kernel × List ℕ)
    → length p.3 ≤ 7
    → length q.3 ≤ 7
    → length (if b then p else q).3 ≤ 7
seven_if true p q h k = h
seven_if false p q h k = k

tick_count-Seven :
    (t : Timer) (k : Kernel) (buff : List ℕ) → length buff ≤ 7 → Seven (tick_count t k buff)
unfolding tick_count print_clk Seven
tick_count-Seven t k buff h =
    let ticks = (t.ticks + 1) % 2 ^ 64 in
    elim (Option-cases (if ticks % alarm_tick_divide == 1 then notify_alarm ticks k else some k)) [
      | inl e ↦ rw e tt
      | inr e ↦ rw e.1 (seven_if (ticks % print_tick_divide == 1) _ _ (omega arith) h)
    ]

-- When `tick_count` returns, with a time of seven characters at most before, so does
-- `put_time_since_boot`: the time still has seven characters at most, and the screen is as before, or the
-- time's characters before the zero stand in the seven cells from column 56 of row 23 on, all other bytes
-- of the screen being as before.
pub put_time_since_boot-Drawn :
    (t : Timer) (k : Kernel) (buff : List ℕ) (d : ℕ → ℕ) (r : ℕ × Timer × Kernel × List ℕ)
    → length buff ≤ 7
    → tick_count t k buff ≡ some r
    → (d' : ℕ → ℕ) × (put_time_since_boot t k buff d ≡ some (r.1, r.2, r.3, d'))
      × (length r.3 ≤ 7)
      × ((d' ≡ d) ⊎ Drawn (cell 23 56) 7 (before_zero r.3) d d')
unfolding put_time_since_boot Seven
put_time_since_boot-Drawn t k buff d r short h =
    let seven : length r.3 ≤ 7 = subst Seven h (tick_count-Seven t k buff short) in
    elim (Bool-cases (r.0 == 0)) [
      | inl same ↦ (d, rw (h, same) refl, seven, inl refl)
      | inr new ↦ (
        put_glyphs (before_zero r.3) (cell 23 56) d,
        rw (h, new) refl,
        seven,
        inr (
            put_glyphs-Drawn (before_zero r.3) (cell 23 56) 7 d
              (omega (arith, before_zero-length r.3, seven))),
      )
    ]
