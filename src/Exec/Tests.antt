-- ===== src/Exec/Tests.antt =====
-- A segment of four bytes, two of them in the file.
use my_sbuos.Base.{ℕ, refl, [], ◌∷◌, arith, ◌==◌, if◌then◌else◌}
use my_sbuos.Exec.{mem_map_file}
use my_sbuos.Exec.Map.{Written, mem_map_file-Written}

abbrev memory : ℕ → ℕ
memory i = if i == 10 then 1 else if i == 11 then 2 else 9

mem_map_file-Written_example :
    Written 20 (1 ∷ 2 ∷ 0 ∷ 0 ∷ []) memory (mem_map_file 10 20 4 2 memory)
mem_map_file-Written_example =
    mem_map_file-Written 10 20 4 (1 ∷ 2 ∷ []) memory (refl, (refl, tt)) (omega arith) (omega arith)
