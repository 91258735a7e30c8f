-- ===== src/Paging/Tests.antt =====
-- An empty root at 0x1000 and six free pages: the first pages of the kernel are mapped.
use my_sbuos.Base.{
  ℕ, ◌+◌, ◌*◌, ◌/◌, ◌%◌, ◌^◌, ◌<◌, ◌≡◌, refl, ◌≢◌, inl, List, [], ◌∷◌, arith, ◌==◌, if◌then◌else◌,
}
use my_sbuos.Pages.{MemPage}
use my_sbuos.Paging.{Machine, k_map_v, k_mem_map_v, table_index}
use my_sbuos.Paging.Step.{Tree}
use my_sbuos.Paging.Region.{Region, k_mem_map_v-Region}
use my_sbuos.Paging.Frames.{table_index-mod}
use my_sbuos.Paging.Walk.{Levels, Supply}
use my_sbuos.Paging.Keep.{Translated, k_map_v-Translated}

abbrev entries : ℕ → MemPage
entries i = record {
  base = if i == 0 then 0 else 0xff000 + 0x1000 * i;
  next = if i == 0 then 0 else if i == 6 then 0 else i + 1;
}

abbrev machine : Machine
machine = record {
  memory = λ a. 0;
  pages = record {
    page_list = entries;
    free = record { head = 1; tail = 6 };
    used = record { head = 0; tail = 0 };
  };
  tail_at = 0xffffffff80210008;
}

abbrev bases : List ℕ
bases = 0x100000 ∷ 0x101000 ∷ 0x102000 ∷ 0x103000 ∷ 0x104000 ∷ 0x105000 ∷ []

abbrev levels : ℕ → ℕ
levels a = if a == 0x1000 then 4 else 0

machine-Levels : Levels levels machine.memory
machine-Levels = record {
  frame = λ t used. (1, ground (arith, used), omega arith);
  entry = λ t i l at hi special. inl refl;
}

machine-Supply : Supply levels machine.pages bases
machine-Supply = record {
  free = 1 ∷ 2 ∷ 3 ∷ 4 ∷ 5 ∷ 6 ∷ [];
  used = [];
  owned = record {
    free_chain = omega arith;
    free_distinct = omega arith;
    used_list = record { chain = refl; tail_is = refl; distinct = tt };
    apart = λ j k. tt;
  };
  are = refl;
  fresh = (
    (refl, (256, refl, omega arith)),
    (
      (refl, (257, refl, omega arith)),
      (
        (refl, (258, refl, omega arith)),
        (
          (refl, (259, refl, omega arith)),
          ((refl, (260, refl, omega arith)), ((refl, (261, refl, omega arith)), tt)),
        ),
      ),
    ),
  );
  distinct = omega arith;
}

kernel_index : table_index 4 0xffffffff80200000 ≡ 511
unfolding table_index
kernel_index = refl

k_map_v-Translated_example :
    Translated 0x200000 0xffffffff80200000 0x1000 levels machine
      (k_map_v 4 0x200000 0xffffffff80200000 0x1000 machine)
k_map_v-Translated_example =
    k_map_v-Translated 0x200000 0xffffffff80200000 0x1000 levels machine bases machine-Levels refl
      (omega (arith, kernel_index)) machine-Supply (omega arith)

machine-Tree : Tree 0x1000 machine (3 * 2)
machine-Tree = record {
  level = levels;
  label = λ t. 0;
  bases = bases;
  levels = machine-Levels;
  labels = λ t i l at hi special ne. absurd (ne refl);
  root_level = refl;
  supply = machine-Supply;
  enough = omega arith;
}

two_indices : (i : ℕ) → i < 2 → table_index 4 (0xffffffff80200000 + 4096 * i) ≢ 510
two_indices i h e =
    let at : table_index 4 (0xffffffff80200000 + 4096 * i)
        ≡ (0xffffffff80200000 + 4096 * i) / 2 ^ 39 % 512 =
      table_index-mod 4 (0xffffffff80200000 + 4096 * i) in
    omega (arith, h, e, at)

k_mem_map_v-Region_example :
    Region 2 0x200000 0xffffffff80200000 0x1000 0 machine
      (k_mem_map_v 3 0x200000 0x201800 0xffffffff80200000 0x1000 machine)
k_mem_map_v-Region_example =
    k_mem_map_v-Region 2 3 0x200000 0x201800 0xffffffff80200000 0x1000 0 machine (omega arith)
      (omega arith) (omega arith) (omega arith) (omega arith) (omega arith) two_indices machine-Tree
