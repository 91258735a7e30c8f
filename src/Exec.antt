-- ===== src/Exec.antt =====
-- sys/exec.c and sys/vma.c: the ELF loader, and the two functions of sys/tarfs.c that call it. `m` is
-- the memory by byte; a field of a header is read byte by byte, the lowest first.
pub mod Map
mod Tests
use my_sbuos.Base.{
  ℕ, zero, suc, ◌+◌, ◌-◌, ◌*◌, ◌/◌, ◌%◌, ◌^◌, ◌≤◌, ◌<◌, ◌≡◌, refl, sym, ap, ap₂, ◌∙◌, ◌≢◌, ◌⊎◌, inl,
  inr, Bool, true, false, not, ◌&&◌, ◌||◌, Option, none, some, List, [], ◌∷◌, ◌++◌, map, append-nil,
  append_assoc, arith, ltb, leb, ◌==◌, if◌then◌else◌, Bool-cases, Option-cases, ◌>>=◌, ltb→lt,
  lt→ltb, leb→le, eq→==, ne→==, ==_iff, length, get_or, length-append, All, All-append, NotIn,
  Distinct, NotIn-append, Distinct-snoc, mem, NotIn-of_mem, mem_of_NotIn, mem-append, update,
  update_self, update_other, Holds, Holds-agree, Holds-append, Holds-append_left,
  Holds-append_right, subst,
}
use my_sbuos.Tar.{Tarfs, header_size, find_path}

-- `n` bytes from `p` on.
unfoldable pub load : (n : ℕ) → (m : ℕ → ℕ) (p : ℕ) → ℕ
load zero m p = 0
load (suc n) m p = m p + 256 * load n m (suc p)

pub check_elf : (m : ℕ → ℕ) (hdr : ℕ) → ℕ
check_elf m hdr =
    if hdr == 0
    then 0
    else if (m hdr == 127) && ((m (hdr + 1) == 69) && ((m (hdr + 2) == 76) && (m (hdr + 3) == 70)))
    then 1
    else 0

-- The loops of `mem_map_file` with the rounds that are left.
pub copy_bytes : (left : ℕ) → (dst src i : ℕ) → (ℕ → ℕ) → ℕ → ℕ
copy_bytes zero dst src i m = m
copy_bytes (suc n) dst src i m = copy_bytes n dst src (suc i) (update m (dst + i) (m (src + i)))

pub clear_bytes : (left : ℕ) → (dst i : ℕ) → (ℕ → ℕ) → ℕ → ℕ
clear_bytes zero dst i m = m
clear_bytes (suc n) dst i m = clear_bytes n dst (suc i) (update m (dst + i) 0)

pub mem_map_file : (file vaddr memsz filesz : ℕ) → (ℕ → ℕ) → ℕ → ℕ
mem_map_file file vaddr memsz filesz m =
    clear_bytes (memsz - filesz) vaddr filesz (copy_bytes filesz vaddr file 0 m)

-- `e_entry`, `e_phoff`, `e_phentsize` and `e_phnum` stand at 24, 32, 54 and 56; `p_offset`, `p_vaddr`,
-- `p_filesz` and `p_memsz` at 8, 16, 32 and 40.
pub map_segments : (left : ℕ) → (header p_base : ℕ) → (ℕ → ℕ) → ℕ → ℕ
map_segments zero header p_base m = m
map_segments (suc n) header p_base m =
    let m' =
      mem_map_file ((header + load 8 m (p_base + 8)) % 2 ^ 64) (load 8 m (p_base + 16))
        (load 8 m (p_base + 40)) (load 8 m (p_base + 32)) m in
    map_segments n header ((p_base + load 2 m' (header + 54)) % 2 ^ 64) m'

-- The entry point and the memory.
pub map_elf : (header : ℕ) → (ℕ → ℕ) → ℕ × (ℕ → ℕ)
map_elf header m =
    let m' =
      map_segments (load 2 m (header + 56)) header ((header + load 8 m (header + 32)) % 2 ^ 64) m in
    (load 8 m' (header + 24), m')

pub exec_answer : (m : ℕ → ℕ) → Option ℕ → ℕ
exec_answer m none = 0
exec_answer m (some p) = if check_elf m (p + header_size) == 0 then 0 else 1

pub search_file_for_exec : (f k : ℕ) → Tarfs → (m : ℕ → ℕ) (path : ℕ) → Option ℕ
search_file_for_exec f k t m path = find_path f k t m path >>= λ r. some (exec_answer m r)

pub map_file_at : (m : ℕ → ℕ) → Option ℕ → ℕ × (ℕ → ℕ)
map_file_at m none = (0, m)
map_file_at m (some p) =
    if check_elf m (p + header_size) == 0 then (0, m) else map_elf (p + header_size) m

pub map_file : (f k : ℕ) → Tarfs → (m : ℕ → ℕ) (path : ℕ) → Option (ℕ × (ℕ → ℕ))
map_file f k t m path = find_path f k t m path >>= λ r. some (map_file_at m r)
