-- ===== src/Pages.antt =====
-- sys/memory_helpers.c: the lists of free and used physical pages. The array `_page_list` is a
-- function of the index, and a `mem_page*` is an index into it; a list cell `uint64_t*` pair is the
-- record `Ends`. Index 0 ends a list. `tail_at` is the address of the variable that holds a tail.
pub mod Chain
pub mod Free
pub mod Build
mod Tests
use my_sbuos.Base.{
  ℕ, zero, suc, ◌+◌, ◌%◌, ◌^◌, Bool, true, false, ◌&&◌, Option, none, some, ltb, leb, ◌==◌,
  if◌then◌else◌, update,
}

abbrev pub page_size : ℕ
page_size = 4096

pub record MemPage : Type 0 where
  pub base : ℕ
  pub next : ℕ

pub record Ends : Type 0 where
  pub head : ℕ
  pub tail : ℕ

pub record Pages : Type 0 where
  pub page_list : ℕ → MemPage
  pub free : Ends
  pub used : Ends

abbrev pub set_next : (ℕ → MemPage) → ℕ → ℕ → ℕ → MemPage
set_next pl i n = update pl i (record (pl i) { next = n })

-- The guard compares the address `list_tail`, not the tail that it points to.
pub dequeue_page : ℕ → (ℕ → MemPage) → Ends → Option ℕ × Ends
dequeue_page tail_at pl e = if (e.head == 0) && (tail_at == 0) then (none, e) else (
  some e.head,
  record { head = (pl e.head).next; tail = if (pl e.head).next == 0 then 0 else e.tail },
)

pub queue_page : (ℕ → MemPage) → Ends → ℕ → (ℕ → MemPage) × Ends
queue_page pl e index =
    if (e.head == 0) && (e.tail == 0)
    then (set_next pl index 0, record { head = index; tail = index })
    else (set_next (set_next pl e.tail index) index 0, record e { tail = index })

pub get_free_page : ℕ → Pages → Option ℕ × Pages
get_free_page tail_at s =
    let taken = dequeue_page tail_at s.page_list s.free in
    let queued = queue_page s.page_list s.used s.free.head in
    elim taken.0 [
      | none ↦ (none, record s { free = taken.1 })
      | some p ↦ (some p, record { page_list = queued.0; free = taken.1; used = queued.1 })
    ]
