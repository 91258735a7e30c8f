-- ===== src/Shell/Tests.antt =====
-- "ab" and "ac".
use my_sbuos.Base.{ℕ, ◌≡◌, refl, [], ◌∷◌, ◌++◌, arith, ◌==◌, if◌then◌else◌}
use my_sbuos.Text.Copy.{Copied}
use my_sbuos.Shell.{strcat}
use my_sbuos.Shell.Join.{strcat-Copied}
use my_sbuos.Text.Strings.{IsString}

abbrev memory : ℕ → ℕ
memory i =
    if i == 10
    then 97
    else if i == 11
    then 98
    else if i == 20
    then 97
    else if i == 21
    then 99
    else 0

first-IsString : IsString memory 10 (97 ∷ 98 ∷ [])
first-IsString = record {
  bytes = ((omega arith, omega arith), ((omega arith, omega arith), tt));
  held = (refl, (refl, (refl, tt)));
}

second-IsString : IsString memory 20 (97 ∷ 99 ∷ [])
second-IsString = record {
  bytes = ((omega arith, omega arith), ((omega arith, omega arith), tt));
  held = (refl, (refl, (refl, tt)));
}

-- Joined in place: the buffer is the first string's.
strcat-Copied_example :
    ((strcat 10 20 10 9 memory).0 ≡ 0)
    × Copied 10 ((97 ∷ 98 ∷ []) ++ 97 ∷ 99 ∷ []) memory (strcat 10 20 10 9 memory).1
strcat-Copied_example =
    strcat-Copied 10 20 10 9 memory (97 ∷ 98 ∷ []) (97 ∷ 99 ∷ []) first-IsString second-IsString
      (omega arith) (omega arith) (omega arith) (omega arith) (omega arith) (omega arith)
