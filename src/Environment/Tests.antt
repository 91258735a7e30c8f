-- ===== src/Environment/Tests.antt =====
-- A chain of one variable, `A`.
use my_sbuos.Base.{ℕ, ◌≡◌, refl, some, List, [], ◌∷◌, arith, ◌==◌, if◌then◌else◌, get_or, update}
use my_sbuos.Process.Sample.{sample_block, sample_kernel}
use my_sbuos.Process.{Kernel, Pcb}
use my_sbuos.Environment.{Environment, var_find, var_add}
use my_sbuos.Environment.Find.{Variables, var_find-first_named, var_add-Variables}

abbrev block : Pcb
block = sample_block 4096

abbrev kernel : Kernel
kernel = sample_kernel block

-- "A" at 0 and "B" at 2
abbrev shell : Environment
shell = record {
  memory = λ a. get_or (65 ∷ 0 ∷ 66 ∷ 0 ∷ []) a 0;
  nodes = λ p.
      if p == 1000
      then record { varname = 0; varval = 0; next = 2000 }
      else record { varname = 0; varval = 2; next = 0 };
  head = 1000;
  tail = 2000;
  envp_copy = λ i. 0;
  kernel = kernel;
}

abbrev names : ℕ → List ℕ
names a = 65 ∷ []

shell-Variables : Variables shell names (2000 ∷ [])
shell-Variables = record {
  chain = (refl, (λ e. omega (arith, e)), refl);
  end_ = refl;
  apart = (((λ e. omega (arith, e)), tt), (tt, tt));
  below = (omega arith, (omega arith, tt));
  names = (
    (
      record { bytes = (((λ e. omega (arith, e)), omega arith), tt); held = (refl, (refl, tt)) },
      omega arith,
    ),
    tt,
  );
}

var_find-first_named_example : var_find 2 0 shell ≡ some 2000
var_find-first_named_example =
    var_find-first_named 2 0 (65 ∷ []) shell names (2000 ∷ []) shell-Variables
      (
        record { bytes = (((λ e. omega (arith, e)), omega arith), tt); held = (refl, (refl, tt)) },
        omega arith,
      )
      (omega arith)

var_add-Variables_example :
    Variables (var_add 2 3 shell) (update names 4096 (66 ∷ [])) (2000 ∷ 4096 ∷ [])
    × (((var_add 2 3 shell).nodes 4096).varval ≡ 3)
    × ((var_add 2 3 shell).memory ≡ shell.memory)
var_add-Variables_example =
    var_add-Variables shell names (2000 ∷ []) 2 3 (66 ∷ []) shell-Variables (omega arith)
      (omega arith)
      (
        record { bytes = (((λ e. omega (arith, e)), omega arith), tt); held = (refl, (refl, tt)) },
        omega arith,
      )
