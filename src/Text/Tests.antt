-- ===== src/Text/Tests.antt =====
-- The theorems of the strings at "ab" and "ac".
use my_sbuos.Base.{ℕ, refl, false, [], ◌∷◌, arith, ◌==◌, if◌then◌else◌}
use my_sbuos.Text.{kstrcmp}
use my_sbuos.Text.Strings.{IsString, Tells, kstrcmp-Tells}

abbrev memory : ℕ → ℕ
memory i =
    if i == 10
    then 97
    else if i == 11
    then 98
    else if i == 20
    then 97
    else if i == 21
    then 99
    else 0

first-IsString : IsString memory 10 (97 ∷ 98 ∷ [])
first-IsString = record {
  bytes = ((omega arith, omega arith), ((omega arith, omega arith), tt));
  held = (refl, (refl, (refl, tt)));
}

second-IsString : IsString memory 20 (97 ∷ 99 ∷ [])
second-IsString = record {
  bytes = ((omega arith, omega arith), ((omega arith, omega arith), tt));
  held = (refl, (refl, (refl, tt)));
}

kstrcmp-Tells_example : Tells false (kstrcmp 3 memory 10 20)
kstrcmp-Tells_example =
    kstrcmp-Tells 3 memory 10 20 (97 ∷ 98 ∷ []) (97 ∷ 99 ∷ []) first-IsString second-IsString
      (omega arith) (omega arith)
