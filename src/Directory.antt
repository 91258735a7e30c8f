-- ===== src/Directory.antt =====
-- libc/stdlib.c: `opendir`, `readdir` and `closedir`, on the entries that the kernel's `fill_dents` has
-- written. `m` is the memory by byte. The system calls are the kernel's functions, with the arguments
-- that `do_system_call` hands them.
pub mod Listing
pub mod Added
pub mod Sample
mod Tests
use my_sbuos.Base.{
  ℕ, zero, suc, ◌+◌, ◌-◌, ◌*◌, ◌/◌, ◌%◌, ◌^◌, ◌≤◌, ◌<◌, ◌≡◌, refl, sym, ap, ap₂, ◌∙◌, ◌≢◌, ◌⊎◌, inl,
  inr, Bool, true, false, not, ◌&&◌, ◌||◌, Option, none, some, List, [], ◌∷◌, ◌++◌, map, append-nil,
  append_assoc, arith, ltb, leb, ◌==◌, if◌then◌else◌, Bool-cases, Option-cases, ◌>>=◌, ltb→lt,
  lt→ltb, leb→le, eq→==, ne→==, ==_iff, length, get_or, length-append, All, All-append, NotIn,
  Distinct, NotIn-append, Distinct-snoc, mem, NotIn-of_mem, mem_of_NotIn, mem-append, update,
  update_self, update_other, Holds, Holds-agree, Holds-append, Holds-append_left,
  Holds-append_right, subst,
}
use my_sbuos.Process.{Kernel, Pcb}
use my_sbuos.Syscall.{do_close, set_active}
use my_sbuos.Syscall.Files.{Place, do_open, do_getdents, o_directory}
use my_sbuos.Tar.Dents.{dirent_size}
use my_sbuos.Exec.{load}
use my_sbuos.Heap.{malloc}

abbrev pub max_dir_size : ℕ
max_dir_size = 2048

-- `DIR`
pub record Dir : Type 0 where
  pub fd : ℕ
  pub dents : ℕ
  pub offset : ℕ

-- `d_ino` and `d_reclen` of the entry at `p`.
abbrev pub d_ino : (m : ℕ → ℕ) (p : ℕ) → ℕ
d_ino m p = load 8 m p

abbrev pub d_reclen : (m : ℕ → ℕ) (p : ℕ) → ℕ
d_reclen m p = load 2 m (p + 16)

-- An `int` widened to 64 bits.
abbrev pub int_to_long : ℕ → ℕ
int_to_long n = if leb (2 ^ 31) (n % 2 ^ 32) then n % 2 ^ 32 + (2 ^ 64 - 2 ^ 32) else n % 2 ^ 32

-- The address of the `DIR` with what stands in it, or 0. The result of `open` is not looked at.
pub opendir : Place → (no_text name : ℕ) → Kernel → (ℕ → ℕ) → Option (ℕ × Dir × Kernel × (ℕ → ℕ))
opendir e no_text name k m =
    let dents = malloc (max_dir_size * dirent_size) k in
    do_open e name o_directory (dents.1.pcbs dents.1.active) m >>= λ opened.
    let dd = int_to_long opened.0 in
    let k1 = set_active (λ p. opened.1) dents.1 in
    do_getdents e no_text dd dents.0 dents.0 k1 opened.2 >>= λ filled.
    let res = malloc 24 k1 in
    let made : Dir = record { fd = dd; dents = dents.0; offset = 0 } in
    some (
      if leb (2 ^ 31) (filled.0 % 2 ^ 32)
      then (0, made, k1, filled.1)
      else (res.0, made, res.1, filled.1))

-- The entry, or 0, and the `DIR`.
pub readdir : (m : ℕ → ℕ) → Dir → ℕ × Dir
readdir m d =
    let res = d.dents + d.offset in
    if d_ino m res == 0
    then (0, d)
    else (res, record d { offset = (d.offset + d_reclen m res) % 2 ^ 64 })

pub closedir : Dir → Kernel → ℕ × Kernel
closedir d k = (0, (do_close d.fd k).1)
