-- ===== src/Format/Tests.antt =====
-- The kernel's `printf` of the format "a%s%d".
use my_sbuos.Base.{ℕ, refl, List, [], ◌∷◌, arith, get_or, All}
use my_sbuos.Console.{Console}
use my_sbuos.Format.Pieces.{Piece, plain, string, negative, Fits, AllSay, Prints, printf-AllSay}

abbrev memory : ℕ → ℕ
memory a = get_or (97 ∷ 37 ∷ 115 ∷ 37 ∷ 100 ∷ 0 ∷ 104 ∷ 105 ∷ 0 ∷ []) a 0

abbrev console : Console
console = record { row = 0; col = 0; display = λ j. 0 }

abbrev pieces : List Piece
pieces = plain 97 ∷ string 6 (104 ∷ 105 ∷ []) ∷ negative 5 ∷ []

pieces-Fits : All (Fits memory) pieces
pieces-Fits = (
  (λ e. omega (arith, e), λ e. omega (arith, e)),
  (
    record {
      bytes = ((λ e. omega (arith, e), omega arith), ((λ e. omega (arith, e), omega arith), tt));
      held = (refl, (refl, (refl, tt)));
    },
    ((omega arith, omega arith), tt),
  ),
)

printf-AllSay_example :
    (out : List ℕ) × AllSay pieces out × Prints 0 pieces memory (λ j. 0) console out
printf-AllSay_example =
    printf-AllSay pieces memory 0 (λ j. 0) console pieces-Fits
      (refl, (refl, (refl, (refl, (refl, (refl, tt))))))
