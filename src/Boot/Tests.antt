-- ===== src/Boot/Tests.antt =====
-- A kernel of one page at 0x200000, the screen of four, and seventeen free pages, the kernel's among them.
use my_sbuos.Base.{
  ℕ, ◌+◌, ◌*◌, ◌/◌, ◌%◌, ◌^◌, ◌<◌, ◌≡◌, refl, ◌≢◌, List, [], ◌∷◌, arith, ◌==◌, if◌then◌else◌,
}
use my_sbuos.Pages.{MemPage}
use my_sbuos.Pages.Build.{no_pages}
use my_sbuos.Paging.{Machine, table_index}
use my_sbuos.Paging.Frames.{table_index-mod}
use my_sbuos.Boot.{Kept, setup_paging}
use my_sbuos.Boot.Root.{Usable}
use my_sbuos.Boot.Paged.{Paged, setup_paging-Paged}

abbrev entries : ℕ → MemPage
entries i = record {
  base = if i == 0 then 0 else 0x1ff000 + 0x1000 * i;
  next = if i == 0 then 0 else if i == 17 then 0 else i + 1;
}

abbrev machine : Machine
machine = record {
  memory = λ a. 0xff;
  pages = record { page_list = entries; free = record { head = 1; tail = 17 }; used = no_pages };
  tail_at = 0x200008;
}

abbrev kept : Kept
kept = record {
  space = record {
    machine = machine;
    cr3 = 0;
    available_virt_mem = 0;
    kmalloc_page = 0;
    kmalloc_index = 0;
  };
  page_list_at = 0x201000;
  display_mem = 0xb8000;
}

abbrev spare : List ℕ
spare =
    0x202000 ∷ 0x203000 ∷ 0x204000 ∷ 0x205000 ∷ 0x206000 ∷ 0x207000 ∷ 0x208000 ∷ 0x209000 ∷ 0x20a000
    ∷ 0x20b000 ∷ 0x20c000 ∷ 0x20d000 ∷ 0x20e000 ∷ 0x20f000 ∷ 0x210000 ∷ []

abbrev machine-Usable : Usable machine.pages 0x200000 0x201000 0x201000 spare
machine-Usable = record {
  free = 1 ∷ 2 ∷ 3 ∷ 4 ∷ 5 ∷ 6 ∷ 7 ∷ 8 ∷ 9 ∷ 10 ∷ 11 ∷ 12 ∷ 13 ∷ 14 ∷ 15 ∷ 16 ∷ 17 ∷ [];
  chain = omega arith;
  distinct = omega arith;
  used_none = refl;
  first_base = refl;
  are = refl;
  frames = (
    (513, refl, omega arith),
    (
      (514, refl, omega arith),
      (
        (515, refl, omega arith),
        (
          (516, refl, omega arith),
          (
            (517, refl, omega arith),
            (
              (518, refl, omega arith),
              (
                (519, refl, omega arith),
                (
                  (520, refl, omega arith),
                  (
                    (521, refl, omega arith),
                    (
                      (522, refl, omega arith),
                      (
                        (523, refl, omega arith),
                        (
                          (524, refl, omega arith),
                          (
                            (525, refl, omega arith),
                            (
                              (526, refl, omega arith),
                              ((527, refl, omega arith), ((528, refl, omega arith), tt)),
                            ),
                          ),
                        ),
                      ),
                    ),
                  ),
                ),
              ),
            ),
          ),
        ),
      ),
    ),
  );
  bases_distinct = omega arith;
}

five_indices : (i : ℕ) → i < 1 + 4 → table_index 4 (0xffffffff80200000 + 4096 * i) ≢ 510
five_indices i h e =
    let at : table_index 4 (0xffffffff80200000 + 4096 * i)
        ≡ (0xffffffff80200000 + 4096 * i) / 2 ^ 39 % 512 =
      table_index-mod 4 (0xffffffff80200000 + 4096 * i) in
    omega (arith, h, e, at)

setup_paging-Paged_example :
    Paged 1 4 0x200000 0xb8000 0xffffffff80200000 0x201000 kept
      (setup_paging 20 0x200000 0x201000 0xb8000 0xbb200 0xffffffff80200000 kept)
setup_paging-Paged_example =
    setup_paging-Paged 1 4 20 0x200000 0x201000 0xb8000 0xbb200 0xffffffff80200000 0x201000 spare
      kept machine-Usable (omega arith) (omega arith) (omega arith) (omega arith) (omega arith)
      (omega arith) (omega arith) (omega arith) (omega arith) (omega arith) (omega arith)
      five_indices (omega arith)
