-- ===== src/Paging.antt =====
-- sys/memory_helpers.c: the page tables of the kernel. The physical memory is given by 8-byte words: a
-- table is 512 of them from its base on. Before the switch of `cr3` the kernel writes the tables at
-- their physical addresses, as `k_map_v` does.
pub mod Entry
pub mod Frames
pub mod Walk
pub mod Grow
pub mod Map
pub mod Labels
pub mod Keep
pub mod Ways
pub mod Step
pub mod Region
mod Tests
use my_sbuos.Base.{
  ℕ, zero, suc, ◌+◌, ◌-◌, ◌*◌, ◌/◌, ◌%◌, ◌^◌, ◌≤◌, ◌<◌, ◌≡◌, refl, sym, ap, ap₂, ◌∙◌, ◌≢◌, ◌⊎◌, inl,
  inr, Bool, true, false, not, ◌&&◌, ◌||◌, Option, none, some, List, [], ◌∷◌, ◌++◌, map, append-nil,
  append_assoc, arith, ltb, leb, ◌==◌, if◌then◌else◌, Bool-cases, Option-cases, ◌>>=◌, ltb→lt,
  lt→ltb, leb→le, eq→==, ne→==, ==_iff, length, get_or, length-append, All, All-append, NotIn,
  Distinct, NotIn-append, Distinct-snoc, mem, NotIn-of_mem, mem_of_NotIn, mem-append, update,
  update_self, update_other, Holds, Holds-agree, Holds-append, Holds-append_left,
  Holds-append_right, subst,
}
use Prim.Native.Nat.{bit_and, bit_or}
use my_sbuos.Base.Bits.{up, ones}
use my_sbuos.Pages.{page_size, MemPage, Pages, get_free_page}

abbrev pub present : ℕ
present = 1

abbrev pub read_write : ℕ
read_write = 2

abbrev pub user_accessible : ℕ
user_accessible = 4

-- PRESENT|READ_WRITE and PRESENT|READ_WRITE|USER_ACCESSIBLE
abbrev pub kernel_flags : ℕ
kernel_flags = 3

abbrev pub user_flags : ℕ
user_flags = 7

-- 0xffffffffff000
abbrev pub frame_mask : ℕ
frame_mask = up 12 (ones 40)

-- The words of the physical memory, the page lists, and `tail_at`, the address of the tail variable
-- of the free list, which `dequeue_page` compares with 0.
pub record Machine : Type 0 where
  pub memory : ℕ → ℕ
  pub pages : Pages
  pub tail_at : ℕ

-- The base of a fresh page; `none` where the source goes on with NULL.
pub take_page : Machine → Option (ℕ × Machine)
take_page s =
    let taken = get_free_page s.tail_at s.pages in
    elim taken.0 [
      | none ↦ none
      | some i ↦ some ((taken.1.page_list i).base, record s { pages = taken.1 })
    ]

-- The bytes of a page set to 0, eight at a time.
pub zero_words : (n : ℕ) → (base i : ℕ) → (ℕ → ℕ) → ℕ → ℕ
zero_words zero base i m = m
zero_words (suc n) base i m = zero_words n base (suc i) (update m (base + 8 * i) 0)

pub zero_out : ℕ → (ℕ → ℕ) → ℕ → ℕ
zero_out base m = zero_words 512 base 0 m

-- The index of `virt` in a table of the level: nine bits.
pub table_index : (lvl virt : ℕ) → ℕ
table_index lvl virt = bit_and 511 (virt / 2 ^ (12 + (lvl - 1) * 9))

pub leaf_entry : (phys : ℕ) → ℕ
leaf_entry phys = bit_or (bit_and phys frame_mask) kernel_flags

unfoldable pub set_word : ℕ → ℕ → Machine → Machine
set_word a v s = record s { memory = update s.memory a v }

-- The part of `k_map_v` between the levels: a missing table is created, cleared and entered.
pub ensure_table : (slot : ℕ) → Machine → Option Machine
ensure_table slot s =
    let made = take_page s >>= λ r.
    some (record r.1 { memory = update (zero_out r.0 r.1.memory) slot (bit_or r.0 user_flags) }) in
    if s.memory slot == 0 then made else some s

-- A level is at least 1.
pub k_map_v : (lvl : ℕ) → (phys virt table : ℕ) → Machine → Option Machine
k_map_v zero phys virt table s = none
k_map_v (suc zero) phys virt table s =
    some (set_word (table + 8 * table_index 1 virt) (leaf_entry phys) s)
k_map_v (suc (suc l)) phys virt table s =
    let slot = table + 8 * table_index (suc (suc l)) virt in
    ensure_table slot s >>= λ s'. k_map_v (suc l) phys virt (bit_and (s'.memory slot) frame_mask) s'

-- The loop over a region: `f` bounds the pages. The next virtual address and the machine.
pub k_mem_map_v : (f : ℕ) → (base end_ virt table : ℕ) → Machine → Option (ℕ × Machine)
k_mem_map_v zero base end_ virt table s = none
k_mem_map_v (suc f) base end_ virt table s = elim (ltb base end_) [
  | false ↦ some (virt, s)
  | true ↦ k_map_v 4 base virt table s >>= λ s'.
      k_mem_map_v f ((base + page_size) % 2 ^ 64) end_ ((virt + page_size) % 2 ^ 64) table s'
]
