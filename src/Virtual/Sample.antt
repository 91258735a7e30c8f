-- ===== src/Virtual/Sample.antt =====
-- The tables of one kernel page: the root at 0x1000 and one table on each level below.
use my_sbuos.Base.{
  ℕ, suc, ◌+◌, ◌*◌, ◌<◌, ◌≡◌, refl, sym, ◌≢◌, ◌⊎◌, inl, inr, some, arith, ◌==◌, if◌then◌else◌,
  Bool-cases, ==_iff, subst,
}
use my_sbuos.Paging.{table_index}
use my_sbuos.Paging.Frames.{table_index-mod}
use my_sbuos.Paging.Walk.{walk}
use my_sbuos.Paging.Walk.{Entry, Levels}
use my_sbuos.Virtual.{Space}

abbrev pub memory : ℕ → ℕ
memory a =
    if a == 0x1ff0
    then 0x1007
    else if a == 0x1ff8
    then 0x2007
    else if a == 0x2ff0
    then 0x3007
    else if a == 0x3008
    then 0x4007
    else if a == 0x4000
    then 0x5007
    else 0

abbrev pub space : Space
space = record {
  machine = record {
    memory = memory;
    pages = record {
      page_list = λ i. record { base = 0; next = 0 };
      free = record { head = 0; tail = 0 };
      used = record { head = 0; tail = 0 };
    };
    tail_at = 8;
  };
  cr3 = 0x1000;
  available_virt_mem = 0xffffffff80400000;
  kmalloc_page = 0;
  kmalloc_index = 0;
}

pub memory-walk : walk 4 memory 0x1000 0xffffffff80200000 ≡ some 0x4000
memory-walk = rw (
  table_index-mod 4 0xffffffff80200000,
  table_index-mod 3 0xffffffff80200000,
  table_index-mod 2 0xffffffff80200000,
  table_index-mod 1 0xffffffff80200000,
)

abbrev pub levels : ℕ → ℕ
levels t =
    if t == 0x1000
    then 4
    else if t == 0x2000
    then 3
    else if t == 0x3000
    then 2
    else if t == 0x4000
    then 1
    else 0

table_cases :
    (t l : ℕ)
    → levels t ≡ suc (suc l)
    → ((t ≡ 0x1000) × (l ≡ 2)) ⊎ (((t ≡ 0x2000) × (l ≡ 1)) ⊎ ((t ≡ 0x3000) × (l ≡ 0)))
table_cases t l h = ground arith

frame_cases : (t : ℕ) → levels t ≢ 0 → (t ≡ 0x1000) ⊎ ((t ≡ 0x2000) ⊎ ((t ≡ 0x3000) ⊎ (t ≡ 0x4000)))
frame_cases t h = ground arith

entry_1000 : (i : ℕ) → i < 512 → i ≢ 510 → Entry levels 2 (memory (0x1000 + 8 * i))
entry_1000 i hi special = elim (Bool-cases (i == 511)) [
  | inl e ↦
      subst (λ j. Entry levels 2 (memory (0x1000 + 8 * j))) (sym ((==_iff _ _).0 e))
        (inr (refl, refl))
  | inr e ↦ inl (ground (arith, e, hi, special))
]

entry_2000 : (i : ℕ) → i < 512 → Entry levels 1 (memory (0x2000 + 8 * i))
entry_2000 i hi = elim (Bool-cases (i == 510)) [
  | inl e ↦
      subst (λ j. Entry levels 1 (memory (0x2000 + 8 * j))) (sym ((==_iff _ _).0 e))
        (inr (refl, refl))
  | inr e ↦ inl (ground (arith, e, hi))
]

entry_3000 : (i : ℕ) → i < 512 → Entry levels 0 (memory (0x3000 + 8 * i))
entry_3000 i hi = elim (Bool-cases (i == 1)) [
  | inl e ↦
      subst (λ j. Entry levels 0 (memory (0x3000 + 8 * j))) (sym ((==_iff _ _).0 e))
        (inr (refl, refl))
  | inr e ↦ inl (ground (arith, e, hi))
]

pub memory-Levels : Levels levels memory
memory-Levels = record {
  frame = λ t used. elim (frame_cases t used) [
    | inl e ↦ (1, e, omega arith)
    | inr (inl e) ↦ (2, e, omega arith)
    | inr (inr (inl e)) ↦ (3, e, omega arith)
    | inr (inr (inr e)) ↦ (4, e, omega arith)
  ];
  entry = λ t i l at hi special. elim (table_cases t l at) [
    | inl (e, k) ↦
        subst (λ u. Entry levels l (memory (u + 8 * i))) (sym e)
          (subst (λ n. Entry levels n (memory (0x1000 + 8 * i))) (sym k)
            (entry_1000 i hi (omega (arith, k, special))))
    | inr (inl (e, k)) ↦
        subst (λ u. Entry levels l (memory (u + 8 * i))) (sym e)
          (subst (λ n. Entry levels n (memory (0x2000 + 8 * i))) (sym k) (entry_2000 i hi))
    | inr (inr (e, k)) ↦
        subst (λ u. Entry levels l (memory (u + 8 * i))) (sym e)
          (subst (λ n. Entry levels n (memory (0x3000 + 8 * i))) (sym k) (entry_3000 i hi))
  ];
}

pub kernel_index : table_index 4 0xffffffff80200000 ≡ 511
kernel_index = table_index-mod 4 0xffffffff80200000
