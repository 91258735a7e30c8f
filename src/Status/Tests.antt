-- ===== src/Status/Tests.antt =====
-- The status line at the stroke Control-"c".
use my_sbuos.Base.{ℕ, ◌≡◌, refl, some, List, [], ◌∷◌, arith}
use my_sbuos.Keyboard.{print_glyph, initial, k_ctrldown}
use my_sbuos.Keyboard.Feed.{Stroke, controlled, held}
use my_sbuos.Console.{cell}
use my_sbuos.Status.Row.{put_all, Drawn, put_pressed_key-stroke}

abbrev stroke : Stroke
stroke = record { modifier = controlled; key = 46; up_1 = 174; up_2 = 157; char = 35 }

abbrev blanks : List ℕ
blanks = 32 ∷ 32 ∷ 32 ∷ 32 ∷ []

abbrev letter : List ℕ
letter = 32 ∷ 94 ∷ 67 ∷ 32 ∷ []

letter-print_glyph : print_glyph (held stroke) ≡ some letter
unfolding print_glyph
letter-print_glyph = refl

put_pressed_key-stroke_example :
    (d' : ℕ → ℕ) × (put_all (k_ctrldown ∷ 46 ∷ 174 ∷ 157 ∷ []) initial blanks (λ j. 0)
      ≡ some (initial, letter, d'))
    × Drawn (cell 23 48) 4 letter (λ j. 0) d'
put_pressed_key-stroke_example =
    put_pressed_key-stroke stroke blanks letter (λ j. 0) (omega arith) (omega arith)
      letter-print_glyph
