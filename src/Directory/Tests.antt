-- ===== src/Directory/Tests.antt =====
-- The entry `b` of the directory `a/` added.
use my_sbuos.Base.{
  ℕ, ◌-◌, ◌<◌, ◌≡◌, refl, ◌≢◌, ◌⊎◌, inl, inr, some, [], ◌∷◌, arith, ltb, if◌then◌else◌, get_or,
}
use my_sbuos.Tar.Dents.{count_slashes, add_dent}
use my_sbuos.Exec.{load}
use my_sbuos.Directory.Listing.{Lists}
use my_sbuos.Directory.Added.{add_dent-Lists}

abbrev archive : ℕ → ℕ
archive a =
    if ltb a 5000
    then get_or (97 ∷ 47 ∷ []) (a - 4000) 0
    else get_or (97 ∷ 47 ∷ 98 ∷ []) (a - 5000) 0

abbrev low : ℕ → ℕ
low a = if ltb a 4000 then 0 else archive a

nothing-Lists : (d : ℕ) → (d ≡ 1000) ⊎ (d ≡ 1280) → load 8 low d ≡ 0
unfolding load
nothing-Lists d (inl e) = rw e refl
nothing-Lists d (inr e) = rw e refl

no_slashes : count_slashes 0 low 5000 2 ≡ 0
unfolding count_slashes
no_slashes = refl

not_zero : (c : ℕ) → 0 < c → c < 256 → (c ≢ 0) × (c < 256)
not_zero c pos small = ((λ e. omega (arith, pos, e)), small)

add_dent-Lists_example :
    (m' : ℕ → ℕ) × (add_dent 8 4000 2 3 5000 1000 0 low ≡ some (1, m'))
    × Lists m' 1000 ((98 ∷ []) ∷ [])
add_dent-Lists_example =
    add_dent-Lists 8 4000 3 5000 1000 low [] (97 ∷ 47 ∷ []) (98 ∷ [])
      (nothing-Lists 1000 (inl refl)) (nothing-Lists 1280 (inr refl)) (omega arith)
      (record {
        bytes = (
          not_zero 97 (omega arith) (omega arith),
          (not_zero 47 (omega arith) (omega arith), tt),
        );
        held = (refl, (refl, (refl, tt)));
      })
      (record {
        bytes = (
          not_zero 97 (omega arith) (omega arith),
          (not_zero 47 (omega arith) (omega arith), (not_zero 98 (omega arith) (omega arith), tt)),
        );
        held = (refl, (refl, (refl, (refl, tt))));
      })
      no_slashes (omega arith) (inl (omega arith)) (omega arith) (omega arith)
