-- ===== src/Heap/Blocks.antt =====
-- What `malloc` hands out.
use my_sbuos.Base.{
  ℕ, ◌+◌, ◌-◌, ◌%◌, ◌^◌, ◌≤◌, ◌<◌, ◌≡◌, refl, inl, inr, false, arith, ltb, ◌==◌, if◌then◌else◌,
  Bool-cases, subst, ltb→lt, ne→==,
}
use my_sbuos.Process.{Kernel}
use my_sbuos.Syscall.{heap_top}
use my_sbuos.Syscall.Memory.{break_of, with_break, do_break-zero, do_break-set, do_break-refuse}
use my_sbuos.Heap.{no_memory, to_int, sbrk, malloc}

-- Where `malloc` moves the break `b`: the size is taken as an `int`, so that one whose low 32 bits reach
-- 2 ^ 31 moves it down.
abbrev pub break_behind : (size b : ℕ) → ℕ
break_behind size b =
    if ltb (size % 2 ^ 32) (2 ^ 31) then b + size % 2 ^ 32 else b + size % 2 ^ 32 - 2 ^ 32

sum-break_behind :
    (size b : ℕ)
    → 0 < break_behind size b
    → b < heap_top
    → (b + to_int size) % 2 ^ 64 ≡ break_behind size b
unfolding to_int
sum-break_behind size b pos h = elim (Bool-cases (ltb (size % 2 ^ 32) (2 ^ 31))) [
  | inl e ↦ rw e (omega (arith, h))
  | inr e ↦
      let down : 0 < b + size % 2 ^ 32 - 2 ^ 32 =
        subst (λ c. 0 < (if c then b + size % 2 ^ 32 else b + size % 2 ^ 32 - 2 ^ 32)) e pos in
      rw e (omega (arith, h, down))
]

-- From a break below the top of the heap that a size does not move to 0 or below, `malloc` hands out the
-- break, whether the block fits or not. It moves the break of the active process by the size, taken as an `int` of 32 bits, and
-- changes nothing else; where that would reach the top it changes nothing at all, and the next block is
-- handed out at the same place.
pub malloc-break_of :
    (size : ℕ) (k : Kernel)
    → 0 < break_behind size (break_of k)
    → break_of k < heap_top
    → ◌≡◌ {A = ℕ × Kernel} (malloc size k) (
      break_of k,
      if ltb (break_behind size (break_of k)) heap_top
          then with_break (break_behind size (break_of k)) k
          else k,
    )
unfolding malloc sbrk
malloc-break_of size k pos h =
    let b = break_of k in
    let to = break_behind size b in
    let s = sum-break_behind size b pos h in
    let there : (b == no_memory) ≡ false = ground (arith, h) in
    let moved : (to == 0) ≡ false = ne→== to 0 (λ e. omega (arith, e, pos)) in
    elim (Bool-cases (ltb to heap_top)) [
      | inl fits ↦
          rw
            (
              do_break-zero k,
              s,
              do_break-set to k pos (ltb→lt to heap_top fits),
              there,
              moved,
              there,
              fits,
            )
            refl
      | inr past ↦
          let high : heap_top ≤ to = ground (arith, past) in
          rw (do_break-zero k, s, do_break-refuse to k pos high, there, there, past) refl
    ]
