-- ===== src/Virtual.antt =====
-- sys/memory_helpers.c after the switch of `cr3`: the tables are reached through virtual addresses, by
-- the entry 510 of the root, which refers to the root itself. An access goes through the processor's
-- walk; `none` is an access that faults, or NULL from an empty free list.
pub mod Pointers
pub mod Present
pub mod Cow
pub mod Fill
pub mod Sample
mod Tests
use my_sbuos.Base.{
  ℕ, zero, suc, ◌+◌, ◌-◌, ◌*◌, ◌/◌, ◌%◌, ◌^◌, ◌≤◌, ◌<◌, ◌≡◌, refl, sym, ap, ap₂, ◌∙◌, ◌≢◌, ◌⊎◌, inl,
  inr, Bool, true, false, not, ◌&&◌, ◌||◌, Option, none, some, List, [], ◌∷◌, ◌++◌, map, append-nil,
  append_assoc, arith, ltb, leb, ◌==◌, if◌then◌else◌, Bool-cases, Option-cases, ◌>>=◌, ltb→lt,
  lt→ltb, leb→le, eq→==, ne→==, ==_iff, length, get_or, length-append, All, All-append, NotIn,
  Distinct, NotIn-append, Distinct-snoc, mem, NotIn-of_mem, mem_of_NotIn, mem-append, update,
  update_self, update_other, Holds, Holds-agree, Holds-append, Holds-append_left,
  Holds-append_right, subst,
}
use Prim.Native.Nat.{bit_and, bit_or}
use my_sbuos.Base.Bits.{up, ones}
use my_sbuos.Pages.{page_size}
use my_sbuos.Paging.{
  Machine, take_page, table_index, frame_mask, user_flags, kernel_flags, set_word,
}
use my_sbuos.Paging.Walk.{walk}

-- The machine with `cr3`, `_available_virt_mem`, `_kmalloc_page` and `_kmalloc_index`.
pub record Space : Type 0 where
  pub machine : Machine
  pub cr3 : ℕ
  pub available_virt_mem : ℕ
  pub kmalloc_page : ℕ
  pub kmalloc_index : ℕ

-- The physical address of a virtual one.
unfoldable pub translate : (m : ℕ → ℕ) (root virt : ℕ) → Option ℕ
translate m root virt = walk 4 m root virt >>= λ slot.
    if m slot % 2 == 0 then none else some (bit_and (m slot) frame_mask + virt % page_size)

pub read_word : ℕ → Space → Option ℕ
read_word virt s = translate s.machine.memory s.cr3 virt >>= λ a. some (s.machine.memory a)

pub write_word : (virt v : ℕ) → Space → Option Space
write_word virt v s = translate s.machine.memory s.cr3 virt >>= λ a.
    some (record s { machine = set_word a v s.machine })

-- `zero_out` at a virtual address, eight bytes at a time.
pub zero_words_v : (n : ℕ) → (virt i : ℕ) → Space → Option Space
zero_words_v zero virt i s = some s
zero_words_v (suc n) virt i s = write_word (virt + 8 * i) 0 s >>= zero_words_v n virt (suc i)

-- 0xffffff7fbfdfe000, the root through itself, and 0xffffff7fbfdfd000, the root of the other process.
abbrev pub self_table : ℕ
self_table = 0xffffff7fbfdfe000

abbrev pub cross_table : ℕ
cross_table = 0xffffff7fbfdfd000

-- 0xffffff8000000000
abbrev pub upper_half : ℕ
upper_half = up 39 (ones 25)

-- The address of the table of the entry `index` of `table`.
pub next_table : (table index : ℕ) → ℕ
next_table table index = bit_or (bit_or table upper_half) (index * 8) * 512 % 2 ^ 64

-- A page entered in the word at `slot`.
pub enter_page : (slot : ℕ) → Space → Option Space
enter_page slot s = take_page s.machine >>= λ r.
    write_word slot (bit_or r.0 user_flags) (record s { machine = r.1 })

-- The rounds of `map_page` above level 1, `n` of them left; `fresh` is `new_page_flag`. A page is cleared
-- in the round after the one that creates it.
pub descend : (n : ℕ) → (virt table : ℕ) (fresh : Bool) → Space → Option (ℕ × Space)
descend zero virt table fresh s = some (table, s)
descend (suc n) virt table fresh s =
    let index = table_index (suc (suc n)) virt in
    let slot = table + 8 * index in
    (if fresh then zero_words_v 512 table 0 s else some s) >>= λ s1. read_word slot s1 >>= λ e.
    (if e == 0 then enter_page slot s1 else some s1) >>= λ s2.
    descend n virt (next_table table index) (e == 0) s2

-- The next virtual address and the space.
pub map_page : (phys virt flags : ℕ) → Space → Option (ℕ × Space)
map_page phys virt flags s = descend 3 virt self_table false s >>= λ r.
    write_word (r.0 + 8 * table_index 1 virt) (bit_or (bit_and phys frame_mask) flags) r.1 >>= λ s'.
    some ((virt + page_size) % 2 ^ 64, s')

-- `_available_virt_mem` is mapped to a fresh page and moves behind it; the base of the page.
pub map_available : (flags : ℕ) → Space → Option (ℕ × Space)
map_available flags s = take_page s.machine >>= λ r.
    map_page r.0 s.available_virt_mem flags (record s { machine = r.1 }) >>= λ q.
    some (r.0, record q.1 { available_virt_mem = q.0 })

pub get_new_page_v : Space → Option (ℕ × Space)
get_new_page_v s = map_available user_flags s >>= λ r. some (s.available_virt_mem, r.1)

-- `virt & 0xfffffffffffff000`
abbrev pub page_of : ℕ → ℕ
page_of virt = virt / page_size * page_size

pub add_physical_page_in : (virt : ℕ) → Space → Option Space
add_physical_page_in virt s = take_page s.machine >>= λ r.
    map_page r.0 (page_of virt) user_flags (record s { machine = r.1 }) >>= λ q. some q.1

-- 0 is NULL.
pub kmalloc : (no_bytes : ℕ) → Space → Option (ℕ × Space)
kmalloc no_bytes s =
    let fresh_page = map_available kernel_flags s >>= λ r.
    some (record r.1 { kmalloc_page = s.available_virt_mem; kmalloc_index = 0 }) in
    let room =
      if (s.kmalloc_page == 0) || leb page_size (s.kmalloc_index + no_bytes)
      then fresh_page
      else some s in
    if ltb page_size no_bytes
    then some (0, s)
    else (room >>= λ s'. some (
      s'.kmalloc_page + s'.kmalloc_index,
      record s' { kmalloc_index = s'.kmalloc_index + no_bytes },
    ))

pub copy_kernel_pml4 : (n : ℕ) → (prog_page_table i : ℕ) → Space → Option Space
copy_kernel_pml4 zero prog i s = some s
copy_kernel_pml4 (suc n) prog i s = read_word (self_table + 8 * i) s >>= λ e.
    write_word (prog + 8 * i) e s >>= copy_kernel_pml4 n prog (suc i)

pub get_active_pml4 : Space → Option ℕ
get_active_pml4 s = read_word (self_table + 8 * 510) s

-- The base of a new root, with the kernel's entries and its own entry 510.
pub get_new_page_table : Space → Option (ℕ × Space)
get_new_page_table s = map_available user_flags s >>= λ r.
    let temp = s.available_virt_mem in
    zero_words_v 512 temp 0 r.1 >>= λ s1. copy_kernel_pml4 512 temp 0 s1 >>= λ s2.
    write_word (temp + 8 * 510) (bit_or r.0 user_flags) s2 >>= λ s3. some (r.0, s3)
