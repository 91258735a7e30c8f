-- ===== src/Environment/Split.antt =====
-- `strsplit` of bin/sbush/strutil.c. The array of the parts is a list, without the null pointer at its
-- end. `none`: the fuel, one round more than the string has characters, is used up.
use my_sbuos.Base.{
  ℕ, zero, suc, ◌+◌, ◌-◌, ◌*◌, true, false, ◌||◌, Option, none, some, List, [], ◌∷◌, ltb, ◌==◌,
  if◌then◌else◌, ◌>>=◌,
}
use my_sbuos.Shell.{none_found, rounds, strlen, strcpy_fr_to}
use my_sbuos.Environment.{Environment, allocate}

-- The first loop.
pub count_delims : (left : ℕ) → (m : ℕ → ℕ) (str delim i delim_c : ℕ) → ℕ
count_delims zero m str delim i delim_c = delim_c
count_delims (suc n) m str delim i delim_c =
    count_delims n m str delim (suc i) (if m (str + i) == delim then suc delim_c else delim_c)

-- The second loop, where `start` is `l + 1`; the string is measured anew in each round.
pub split_loop : (f : ℕ) → (str delim i start : ℕ) → Environment → Option (List ℕ × Environment)
split_loop zero str delim i start s = none
split_loop (suc f) str delim i start s =
    let l = strlen s.memory str in
    let arg = allocate (i + 2 - start) s in
    let cut = record arg.1 { memory = (strcpy_fr_to str arg.0 start i arg.1.memory).1 } in
    elim (ltb i (if l == none_found then 0 else suc l)) [
      | false ↦ some ([], s)
      | true ↦ elim ((s.memory (str + i) == delim) || (s.memory (str + i) == 0)) [
        | false ↦ split_loop f str delim (suc i) start s
        | true ↦
            split_loop f str delim (suc i) (suc i) cut >>= λ parts. some (arg.0 ∷ parts.0, parts.1)
      ]
    ]

-- The address of the array comes first.
pub strsplit : (f str delim : ℕ) → Environment → Option (ℕ × List ℕ × Environment)
strsplit f str delim s =
    let delim_c = count_delims (rounds (strlen s.memory str)) s.memory str delim 0 0 in
    let res = allocate (8 * (2 + delim_c)) s in
    split_loop f str delim 0 0 res.1 >>= λ parts. some (res.0, parts.0, parts.1)
