-- ===== src/Tar/Dents.antt =====
-- `fill_dents` of sys/tarfs.c: the entries of a directory, written into the caller's memory. A `struct
-- dirent` has 280 bytes, with `d_ino` at 0, `d_reclen` at 16 and `d_name` at 18.
use my_sbuos.Base.{
  ℕ, zero, suc, ◌+◌, ◌-◌, ◌*◌, ◌/◌, ◌%◌, ◌^◌, Bool, true, false, not, ◌||◌, Option, none, some, ltb,
  ◌==◌, if◌then◌else◌, ◌>>=◌, update,
}
use my_sbuos.Text.{kstrlen, kstrcpy, kstrstartswith}
use my_sbuos.Tar.{Tarfs, size_field, tar_size, next_offset}

abbrev pub dirent_size : ℕ
dirent_size = 280

abbrev pub name_max : ℕ
name_max = 255

-- `n` bytes of a number, the lowest first.
unfoldable pub store : (n : ℕ) → (p v : ℕ) → (ℕ → ℕ) → ℕ → ℕ
store zero p v m = m
store (suc n) p v m = store n (suc p) (v / 256) (update m p (v % 256))

unfoldable pub count_slashes : (left : ℕ) → (m : ℕ → ℕ) (name i : ℕ) → ℕ
count_slashes zero m name i = 0
count_slashes (suc n) m name i =
    (if m (name + i) == 47 then 1 else 0) + count_slashes n m name (suc i)

-- One header: an entry is added when the name begins with the path and has no slash between the path
-- and its last character.
unfoldable pub add_dent : (k : ℕ) → (path l ll p buffer ent_c : ℕ) → (ℕ → ℕ) → Option (ℕ × (ℕ → ℕ))
add_dent k path l ll p buffer ent_c m =
    let at = buffer + ent_c * dirent_size in
    let numbered = store 2 (at + 16) dirent_size (store 8 at (ent_c + 1) m) in
    kstrstartswith k m p path >>= λ begins.
    if (begins == 0) || not (count_slashes (ll - 1 - l) m p l == 0)
    then some (ent_c, m)
    else (kstrcpy k (at + 18) (p + l) name_max numbered >>= λ c. some (suc ent_c, c.1))

-- Whether the walk ended at an empty name, where the source returns at once, the entries, the memory.
pub dents_loop :
    (f k : ℕ) → Tarfs → (path l buffer offset ent_c : ℕ) → (ℕ → ℕ) → Option (Bool × ℕ × (ℕ → ℕ))
dents_loop zero k t path l buffer offset ent_c m = none
dents_loop (suc f) k t path l buffer offset ent_c m =
    let p = (t.tar_start + offset) % 2 ^ 64 in
    elim (ltb p t.tar_end) [
      | false ↦ some (false, ent_c, m)
      | true ↦ kstrlen k m p >>= λ ll. (elim (ll == 0) [
        | true ↦ some (true, ent_c, m)
        | false ↦ add_dent k path l ll p buffer ent_c m >>= λ r.
            dents_loop f k t path l buffer (next_offset offset (tar_size m (p + size_field))) r.0
              r.1
      ])
    ]

pub clear_dents : (left : ℕ) → (buffer i : ℕ) → (ℕ → ℕ) → ℕ → ℕ
clear_dents zero buffer i m = m
clear_dents (suc n) buffer i m =
    clear_dents n buffer (suc i) (store 8 (buffer + i * dirent_size) 0 m)

pub fill_dents_by_path :
    (f k : ℕ) → Tarfs → (path buffer dir_size : ℕ) → (ℕ → ℕ) → Option (ℕ × (ℕ → ℕ))
fill_dents_by_path f k t path buffer dir_size m = kstrlen k m path >>= λ l.
    dents_loop f k t path l buffer 0 0 m >>= λ r.
    some (0, if r.0 then r.2 else clear_dents (dir_size - r.1) buffer r.1 r.2)

-- `no_text` is the address of the literal "".
pub fill_dents :
    (f k : ℕ) → Tarfs → (no_text file_start buffer size : ℕ) → (ℕ → ℕ) → Option (ℕ × (ℕ → ℕ))
fill_dents f k t no_text file_start buffer size m =
    fill_dents_by_path f k t (if file_start == t.tar_end then no_text else file_start) buffer size m
