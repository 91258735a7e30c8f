-- ===== src/Virtual/Cow.antt =====
-- sys/memory_helpers.c: copy on write. A fork marks the pages of both processes; the first write to one
-- copies it. The pages of the other process are reached through the entry 509 of the root.
pub mod Pointer
pub mod Copy
pub mod Private
use my_sbuos.Base.{
  ℕ, zero, suc, ◌+◌, ◌-◌, ◌*◌, ◌/◌, ◌%◌, ◌^◌, ◌≤◌, ◌<◌, ◌≡◌, refl, sym, ap, ap₂, ◌∙◌, ◌≢◌, ◌⊎◌, inl,
  inr, Bool, true, false, not, ◌&&◌, ◌||◌, Option, none, some, List, [], ◌∷◌, ◌++◌, map, append-nil,
  append_assoc, arith, ltb, leb, ◌==◌, if◌then◌else◌, Bool-cases, Option-cases, ◌>>=◌, ltb→lt,
  lt→ltb, leb→le, eq→==, ne→==, ==_iff, length, get_or, length-append, All, All-append, NotIn,
  Distinct, NotIn-append, Distinct-snoc, mem, NotIn-of_mem, mem_of_NotIn, mem-append, update,
  update_self, update_other, Holds, Holds-agree, Holds-append, Holds-append_left,
  Holds-append_right, subst,
}
use Prim.Native.Nat.{bit_and, bit_or}
use my_sbuos.Process.{Pcb, Kernel, find_pcb_by_ppid, find_pcb_by_pid}
use my_sbuos.Paging.{take_page, read_write, user_flags}
use my_sbuos.Virtual.{
  Space, read_word, write_word, self_table, cross_table, next_table, page_of, enter_page,
}

abbrev pub cow : ℕ
cow = 0x200

-- `~READ_WRITE` and `~COW`, widened to 64 bits
abbrev pub not_read_write : ℕ
not_read_write = 0xfffffffffffffffd

abbrev pub not_cow : ℕ
not_cow = 0xfffffffffffffdff

pub marked : ℕ → ℕ
marked e = bit_or (bit_and e not_read_write) cow

-- The loop of `_do_mark_COW` on level 1 with `n` rounds left.
pub mark_entries : (n : ℕ) → (table_p table_c i : ℕ) → Space → Option Space
mark_entries zero table_p table_c i s = some s
mark_entries (suc n) table_p table_c i s = read_word (table_p + 8 * i) s >>= λ e.
    (if e == 0
      then some s
      else (write_word (table_p + 8 * i) (marked e) s >>= write_word (table_c + 8 * i) (marked e)))
    >>= mark_entries n table_p table_c (suc i)

-- One entry above level 1: a page for the child's table, and the level below.
pub mark_tables :
    (below : ℕ → ℕ → Space → Option Space) (n : ℕ) → (table_p table_c i : ℕ) → Space → Option Space
mark_tables below zero table_p table_c i s = some s
mark_tables below (suc n) table_p table_c i s = read_word (table_p + 8 * i) s >>= λ e.
    (if e == 0
      then some s
      else (enter_page (table_c + 8 * i) s >>= below (next_table table_p i) (next_table table_c i)))
    >>= mark_tables below n table_p table_c (suc i)

-- The level above 1 is counted by `lvl`: 0 stands for level 1 and 3 for level 4.
pub do_mark_cow : (lvl : ℕ) → (table_p table_c : ℕ) → Space → Option Space
do_mark_cow zero table_p table_c = mark_entries 512 table_p table_c 0
do_mark_cow (suc lvl) table_p table_c =
    mark_tables (do_mark_cow lvl) (if lvl == 2 then 509 else 512) table_p table_c 0

pub mark_cow : Space → Option Space
mark_cow = do_mark_cow 3 self_table cross_table

-- 0xffff000000000000
abbrev pub canonical : ℕ
canonical = 0xffff000000000000

pub cross_off_cow : (virt : ℕ) → Space → Option Space
cross_off_cow virt s = read_word (self_table + 8 * 509) s >>= λ cross.
    let v = bit_and (bit_or (page_of virt) canonical) 0xfffdffffffffffff in
    let ptr = bit_or (v / 2 ^ 9) canonical in
    if cross == 0
    then some s
    else (read_word ptr s >>= λ e. write_word ptr (bit_or (bit_and e not_cow) read_write) s)

-- `temp_page`, eight bytes at a time.
pub save_words : (n : ℕ) → (virt i : ℕ) (temp_page : ℕ → ℕ) → Space → Option (ℕ → ℕ)
save_words zero virt i temp_page s = some temp_page
save_words (suc n) virt i temp_page s =
    read_word (virt + 8 * i) s >>= λ w. save_words n virt (suc i) (update temp_page i w) s

pub restore_words : (n : ℕ) → (virt i : ℕ) (temp_page : ℕ → ℕ) → Space → Option Space
restore_words zero virt i temp_page s = some s
restore_words (suc n) virt i temp_page s =
    write_word (virt + 8 * i) (temp_page i) s >>= restore_words n virt (suc i) temp_page

-- The address of the last entry of a page, through the root itself.
pub leaf_pointer : ℕ → ℕ
leaf_pointer virt = bit_or (bit_and (bit_or virt canonical) 0xfffeffffffffffff / 2 ^ 9) canonical

-- `temp_page` is static in the source: what the copy leaves in it stays. It is a store of its own here.
pub map_page_cow :
    (phys v_addr flags current_table : ℕ) (temp_page : ℕ → ℕ) → Space → Option ((ℕ → ℕ) × Space)
map_page_cow phys v_addr flags current_table temp_page s =
    let virt = page_of v_addr in
    save_words 512 virt 0 temp_page s >>= λ saved.
    write_word (leaf_pointer virt) (bit_or phys flags) s >>= λ s'.
    restore_words 512 virt 0 saved (record s' { cr3 = current_table }) >>= λ s''. some (saved, s'')

pub do_cow : (pml4 v_addr : ℕ) (temp_page : ℕ → ℕ) → Space → Option ((ℕ → ℕ) × Space)
do_cow pml4 v_addr temp_page s = take_page s.machine >>= λ r.
    map_page_cow r.0 v_addr user_flags pml4 temp_page (record s { machine = r.1 })

-- Whether the process that shares the page is gone.
pub partner_gone : Kernel → Option Bool
partner_gone k =
    let proc = k.pcbs k.active in
    (if proc.ppid == 0 then find_pcb_by_ppid proc.pid k else find_pcb_by_pid proc.ppid k)
    >>= λ partner. some (elim partner [ none ↦ true | some p ↦ false ])

pub handle_cow : (address : ℕ) (temp_page : ℕ → ℕ) → Kernel → Space → Option ((ℕ → ℕ) × Space)
handle_cow address temp_page k s = partner_gone k >>= λ gone.
    if gone
    then (cross_off_cow address s >>= λ s'. some (temp_page, s'))
    else (do_cow (k.pcbs k.active).pml4 address temp_page s >>= λ r.
        cross_off_cow address r.1 >>= λ s'. some (r.0, s'))

pub mark_fork_cross_entry : (parent_pml4 child_pml4 : ℕ) → Space → Option Space
mark_fork_cross_entry parent child s =
    write_word (self_table + 8 * 509) (bit_or child user_flags) s
    >>= write_word (cross_table + 8 * 509) (bit_or parent user_flags)
