-- ===== src/Directory/Sample.antt =====
-- A directory with the entry "a" at 1000, for the tests of the programs.
use my_sbuos.Base.{ℕ, refl, [], ◌∷◌, arith, ◌==◌, if◌then◌else◌}
use my_sbuos.Exec.{load}
use my_sbuos.Directory.{Dir}
use my_sbuos.Directory.Listing.{Lists}

abbrev pub entries : ℕ → ℕ
entries a =
    if a == 1000
    then 1
    else if a == 1016
    then 24
    else if a == 1017
    then 1
    else if a == 1018
    then 97
    else 0

abbrev pub dir : Dir
dir = record { fd = 3; dents = 1000; offset = 0 }

pub entries-Lists : Lists entries 1000 ((97 ∷ []) ∷ [])
unfolding load
entries-Lists = (
  (λ e. omega (arith, e)),
  refl,
  record { bytes = (((λ e. omega (arith, e)), omega arith), tt); held = (refl, (refl, tt)) },
  omega arith,
  refl,
)
