-- ===== src/Pages/Build.antt =====
-- sys/memory_helpers.c at boot: `init_pages`, `make_pages` and `filter_out_pages`. A pointer
-- `physfree` into `_page_list` is an index. Each loop runs on fuel.
pub mod Make
pub mod Filter
use my_sbuos.Base.{
  ℕ, zero, suc, ◌+◌, ◌%◌, ◌^◌, Bool, ◌&&◌, Option, none, some, ltb, leb, ◌==◌, if◌then◌else◌,
  update,
}
use my_sbuos.Pages.{page_size, MemPage, Ends, Pages, set_next, queue_page}

abbrev pub no_pages : Ends
no_pages = record { head = 0; tail = 0 }

-- The memory at `physfree` holds `pl` before.
unfoldable pub init_pages : (ℕ → MemPage) → ℕ × Pages
init_pages pl = (
  1,
  record {
    page_list = update pl 0 (record { base = 0; next = 0 });
    free = no_pages;
    used = no_pages;
  },
)

-- The body of the loop in `make_pages`.
pub make_page : ℕ → ℕ → ℕ → Pages → Pages
make_page index list_index page s =
    let pl : ℕ → MemPage = update s.page_list page (record (s.page_list page) { base = index }) in
    let queued = queue_page pl s.free list_index in
    record s { page_list = queued.0; free = queued.1 }

pub make_loop : ℕ → (stop index list_index page : ℕ) → Pages → Option (ℕ × Pages)
make_loop zero stop index list_index page s = none
make_loop (suc k) stop index list_index page s =
    let rest =
      make_loop k stop ((index + page_size) % 2 ^ 64) (suc list_index) (suc page)
        (make_page index list_index page s) in
    if ltb index stop then rest else some (page, s)

-- The numbering of the pages starts at 1 in every call.
pub make_pages : ℕ → (base len physfree : ℕ) → Pages → Option (ℕ × Pages)
make_pages fuel base len physfree s =
    if base == 0
    then some (physfree, s)
    else make_loop fuel ((base + len) % 2 ^ 64) base 1 physfree s

-- `while(1);` after a panic is `panic`.
pub data Outcome (A : Type 0) : Type 0 where
  done : A → Outcome A
  panic : Outcome A
  out_of_fuel : Outcome A

abbrev pub in_range : ℕ → ℕ → ℕ → Bool
in_range base top b = leb base b && ltb b top

pub drop_front : ℕ → (base top : ℕ) → (ℕ → MemPage) → ℕ → Outcome ℕ
drop_front zero base top pl head = out_of_fuel
drop_front (suc k) base top pl head =
    let rest = drop_front k base top pl (pl head).next in
    if in_range base top (pl head).base
    then (if (pl head).next == 0 then panic else rest)
    else done head

-- The inner loop: the pages behind `curr` are unlinked while they are in the range.
pub unlink : ℕ → (base top : ℕ) → (ℕ → MemPage) → (curr next : ℕ) → Outcome (ℕ → MemPage)
unlink zero base top pl curr next = out_of_fuel
unlink (suc k) base top pl curr next =
    let next_index = (pl next).next in
    let rest = unlink k base top (set_next (set_next pl curr next_index) next 0) curr next_index in
    if in_range base top (pl next).base then rest else done pl

-- The outer loop, from the page `index` on.
pub sweep : ℕ → (base top : ℕ) → (ℕ → MemPage) → ℕ → Outcome (ℕ → MemPage)
sweep zero base top pl index = out_of_fuel
sweep (suc k) base top pl index =
    let unlinked = unlink (suc k) base top pl index (pl index).next in
    let rest = λ (pl' : ℕ → MemPage). sweep k base top pl' (pl' index).next in
    if index == 0
    then done pl
    else elim unlinked [ done pl' ↦ rest pl' | panic ↦ panic | out_of_fuel ↦ out_of_fuel ]

pub filter_out_pages : ℕ → (base top : ℕ) → Pages → Outcome Pages
filter_out_pages fuel base top s = elim (drop_front fuel base top s.page_list s.free.head) [
  | done h ↦ elim (sweep fuel base top s.page_list h) [
    | done pl ↦ done (record s { page_list = pl; free = record (s.free) { head = h } })
    | panic ↦ panic
    | out_of_fuel ↦ out_of_fuel
  ]
  | panic ↦ panic
  | out_of_fuel ↦ out_of_fuel
]
