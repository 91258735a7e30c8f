-- ===== src/Tar.antt =====
-- sys/tarfs.c: the read-only archive that is the file system. A header is 512 bytes, with the name
-- at its start and the octal size at byte 124. The functions that look a path up share one walk over
-- the headers, `find_loop`; each differs in what it does at the header found.
pub mod Octal
pub mod Find
pub mod Read
pub mod Dents
mod Tests
use my_sbuos.Base.{
  ℕ, zero, suc, ◌+◌, ◌-◌, ◌*◌, ◌/◌, ◌%◌, ◌^◌, ◌≤◌, ◌<◌, ◌≡◌, refl, sym, ap, ap₂, ◌∙◌, ◌≢◌, ◌⊎◌, inl,
  inr, Bool, true, false, not, ◌&&◌, ◌||◌, Option, none, some, List, [], ◌∷◌, ◌++◌, map, append-nil,
  append_assoc, arith, ltb, leb, ◌==◌, if◌then◌else◌, Bool-cases, Option-cases, ◌>>=◌, ltb→lt,
  lt→ltb, leb→le, eq→==, ne→==, ==_iff, length, get_or, length-append, All, All-append, NotIn,
  Distinct, NotIn-append, Distinct-snoc, mem, NotIn-of_mem, mem_of_NotIn, mem-append, update,
  update_self, update_other, Holds, Holds-agree, Holds-append, Holds-append_left,
  Holds-append_right, subst,
}
use my_sbuos.Text.{kstrlen, kstrcmp}
use my_sbuos.Process.{Pcb, FileDesc}

pub record Tarfs : Type 0 where
  pub tar_start : ℕ
  pub tar_end : ℕ

pub init_tarfs : (tar_start tar_end : ℕ) → Tarfs
init_tarfs s e = record { tar_start = s; tar_end = e }

-- `sizeof(tarfs_header)` and the place of its field `size`
abbrev pub header_size : ℕ
header_size = 512

abbrev pub size_field : ℕ
size_field = 124

-- A `char` is signed: the pattern of the `uint64_t` that it becomes.
pub char_to_u64 : ℕ → ℕ
char_to_u64 c = if ltb c 128 then c else c + (2 ^ 64 - 256)

-- `left` digits are left.
pub tar_size_loop : (left : ℕ) → (m : ℕ → ℕ) (s res : ℕ) → ℕ
tar_size_loop zero m s res = res
tar_size_loop (suc n) m s res =
    tar_size_loop n m (suc s) ((res * 8 + (char_to_u64 (m s) + (2 ^ 64 - 48))) % 2 ^ 64)

pub tar_size : (m : ℕ → ℕ) (s : ℕ) → ℕ
tar_size m s = tar_size_loop 11 m s 0

pub tar_size_roundup : ℕ → ℕ
tar_size_roundup size = if size == 0 then 0 else 512 - size % 512

pub next_offset : (offset size : ℕ) → ℕ
next_offset offset size = (offset + (size + header_size + tar_size_roundup size)) % 2 ^ 64

-- The address of the first header with the name that stands at `name`; `f` bounds the headers
-- visited and `k` the length of a string.
pub find_loop : (f k : ℕ) → Tarfs → (m : ℕ → ℕ) (name offset : ℕ) → Option (Option ℕ)
find_loop zero k t m name offset = none
find_loop (suc f) k t m name offset =
    let p = (t.tar_start + offset) % 2 ^ 64 in
    let rest = find_loop f k t m name (next_offset offset (tar_size m (p + size_field))) in
    if ltb p t.tar_end
    then (kstrlen k m p >>= λ l.
        if l == 0
        then some none
        else (kstrcmp k m p name >>= λ r. if r == 0 then some (some p) else rest))
    else some none

-- Every look-up is at `path + 1`, behind the leading slash.
pub find_path : (f k : ℕ) → Tarfs → (m : ℕ → ℕ) (path : ℕ) → Option (Option ℕ)
find_path f k t m path = find_loop f k t m (suc path) 0

pub dir_answer : (m : ℕ → ℕ) → Option ℕ → ℕ
dir_answer m none = 0
dir_answer m (some p) = if tar_size m (p + size_field) == 0 then 1 else 0

pub search_for_dir : (f k : ℕ) → Tarfs → (m : ℕ → ℕ) (path : ℕ) → Option ℕ
search_for_dir f k t m path = find_path f k t m path >>= λ r. some (dir_answer m r)

pub open_answer : (m : ℕ → ℕ) → Option ℕ → ℕ
open_answer m none = 0
open_answer m (some p) = if tar_size m (p + size_field) == 0 then 0 else 1

pub search_file_open : (f k : ℕ) → Tarfs → (m : ℕ → ℕ) (path : ℕ) → Option ℕ
search_file_open f k t m path = find_path f k t m path >>= λ r. some (open_answer m r)

-- A new descriptor. The source does not test `next_fd` against the table.
pub add_fd : Pcb → (address size : ℕ) → ℕ × Pcb
add_fd proc address size = (
  proc.next_fd,
  record proc {
    next_fd = suc proc.next_fd;
    fd_table = λ i.
        if i == proc.next_fd
        then record { file_start_address = address; file_size = size; file_offset = 0 }
        else proc.fd_table i;
  },
)

-- -1 as an `int`.
abbrev pub no_file : ℕ
no_file = 2 ^ 32 - 1

pub open_file_at : (m : ℕ → ℕ) → Pcb → Option ℕ → ℕ × Pcb
open_file_at m proc none = (no_file, proc)
open_file_at m proc (some p) = add_fd proc (p + header_size) (tar_size m (p + size_field))

pub do_open_file : (f k : ℕ) → Tarfs → (m : ℕ → ℕ) → Pcb → (path : ℕ) → Option (ℕ × Pcb)
do_open_file f k t m proc path = find_path f k t m path >>= λ r. some (open_file_at m proc r)

pub open_dir_at : Pcb → Option ℕ → ℕ × Pcb
open_dir_at proc none = (no_file, proc)
open_dir_at proc (some p) = add_fd proc p 0

-- `root` is the address of the literal "/".
pub do_open_dir : (f k : ℕ) → Tarfs → (m : ℕ → ℕ) (root : ℕ) → Pcb → (path : ℕ) → Option (ℕ × Pcb)
do_open_dir f k t m root proc path = kstrcmp k m path root >>= λ r.
    let found = find_path f k t m path >>= λ q. some (open_dir_at proc q) in
    if r == 0 then some (add_fd proc t.tar_end 0) else found

-- The loop of `read_to_buffer` with `left` rounds left: the number returned, the offset, the memory.
pub read_loop :
    (left : ℕ) → (file file_size buffer size_read offset : ℕ) → (ℕ → ℕ) → ℕ × ℕ × (ℕ → ℕ)
read_loop zero file file_size buffer size_read offset m =
    (suc size_read, offset, update m (buffer + size_read) 0)
read_loop (suc left) file file_size buffer size_read offset m =
    let m' = update m (buffer + size_read) (m (file + offset)) in
    let rest = read_loop left file file_size buffer (suc size_read) (suc offset) m' in
    if leb file_size offset
    then (suc size_read, offset, update m (buffer + size_read) 0)
    else if m (file + offset) == 10
    then (suc size_read, suc offset, update m' (buffer + suc size_read) 0)
    else rest

-- `size - 1` is in 64 bits without sign.
pub read_to_buffer : FileDesc → (buffer size : ℕ) → (ℕ → ℕ) → ℕ × FileDesc × (ℕ → ℕ)
read_to_buffer d buffer size m =
    let r =
      read_loop ((size + (2 ^ 64 - 1)) % 2 ^ 64) d.file_start_address d.file_size buffer 0
        d.file_offset m in
    if leb d.file_size d.file_offset then (0, d, m) else (r.0, record d { file_offset = r.1 }, r.2)
