-- ===== src/Heap.antt =====
-- libc/stdlib.c: `sbrk` and `malloc` over the system call `brk`, which is `do_break` in the kernel.
pub mod Blocks
mod Tests
use my_sbuos.Base.{
  ℕ, zero, suc, ◌+◌, ◌-◌, ◌*◌, ◌/◌, ◌%◌, ◌^◌, ◌≤◌, ◌<◌, ◌≡◌, refl, sym, ap, ap₂, ◌∙◌, ◌≢◌, ◌⊎◌, inl,
  inr, Bool, true, false, not, ◌&&◌, ◌||◌, Option, none, some, List, [], ◌∷◌, ◌++◌, map, append-nil,
  append_assoc, arith, ltb, leb, ◌==◌, if◌then◌else◌, Bool-cases, Option-cases, ◌>>=◌, ltb→lt,
  lt→ltb, leb→le, eq→==, ne→==, ==_iff, length, get_or, length-append, All, All-append, NotIn,
  Distinct, NotIn-append, Distinct-snoc, mem, NotIn-of_mem, mem_of_NotIn, mem-append, update,
  update_self, update_other, Holds, Holds-agree, Holds-append, Holds-append_left,
  Holds-append_right, subst,
}
use my_sbuos.Process.{Kernel}
use my_sbuos.Syscall.{do_break}

-- The address, or -1, which is 2 ^ 64 - 1.
abbrev pub no_memory : ℕ
no_memory = 2 ^ 64 - 1

-- A `size_t` passed as an `int` and added to a `uint64_t`.
pub to_int : ℕ → ℕ
to_int size =
    if ltb (size % 2 ^ 32) (2 ^ 31) then size % 2 ^ 32 else size % 2 ^ 32 + (2 ^ 64 - 2 ^ 32)

pub sbrk : (inc : ℕ) → Kernel → ℕ × Kernel
sbrk inc k =
    let now = do_break 0 k in
    let moved = do_break ((now.0 + inc) % 2 ^ 64) now.1 in
    if now.0 == no_memory
    then (no_memory, now.1)
    else if moved.0 == 0
    then (no_memory, moved.1)
    else (now.0, moved.1)

pub malloc : (size : ℕ) → Kernel → ℕ × Kernel
malloc size k = let p = sbrk (to_int size) k in if p.0 == no_memory then (0, p.1) else p
