-- ===== src/Tar/Find.antt =====
-- The walk over the headers of an archive, and the look-ups that use it.
use my_sbuos.Base.{
  ℕ, zero, suc, ◌+◌, ◌-◌, ◌*◌, ◌/◌, ◌%◌, ◌^◌, ◌<◌, ◌≡◌, refl, sym, ap, ap₂, ◌≢◌, ◌⊎◌, inl, inr,
  true, false, not, ◌&&◌, Option, none, some, List, [], ◌∷◌, arith, ltb, ◌==◌, if◌then◌else◌,
  Bool-cases, length, All, update, Holds,
}
use my_sbuos.Text.Strings.{IsString, same_text, kstrlen-length, kstrcmp-Tells}
use my_sbuos.Process.{Pcb}
use my_sbuos.Tar.{
  Tarfs, header_size, size_field, tar_size, tar_size_roundup, next_offset, find_loop, find_path,
  dir_answer, search_for_dir, open_answer, search_file_open, add_fd, open_file_at, do_open_file,
}
use my_sbuos.Tar.Octal.{octal, tar_size-octal}

pub record Entry : Type 0 where
  pub name : List ℕ
  pub size : ℕ

-- the 512-byte blocks of a file
abbrev pub blocks : ℕ → ℕ
blocks size = (size + 511) / 512

-- The entries of a tar archive, laid out from the address `p` up to the end `e`: behind a header
-- stand the file's blocks, and behind the last entry a header with an empty name.
abbrev pub Laid : (m : ℕ → ℕ) (k e p : ℕ) → List Entry → Type 0
Laid m k e p [] = (p < e) × IsString m p []
Laid m k e p (x ∷ xs) =
    IsString m p x.name
    × (0 < length x.name)
    × (length x.name < k)
    × (x.size < 8 ^ 11)
    × Holds m (p + size_field) (octal 11 x.size)
    × (p < e)
    × Laid m k e (p + header_size + 512 * blocks x.size) xs

-- The rounding of the source is that of tar for every size but the positive multiples of 512.
abbrev pub Rounded : Entry → Type 0
Rounded x = (x.size ≡ 0) ⊎ (x.size % 512 ≢ 0)

-- The address of the first header with the name, and its size.
abbrev pub first_named : (p : ℕ) → List ℕ → List Entry → Option ℕ
first_named p name [] = none
first_named p name (x ∷ xs) =
    if same_text x.name name
    then some p
    else first_named (p + header_size + 512 * blocks x.size) name xs

-- A size and its rounding make whole blocks, one too many for a positive multiple of 512.
pub tar_size_roundup-blocks :
    (size : ℕ)
    → (size + tar_size_roundup size
        ≡ 512 * (if (size % 512 == 0) && not (size == 0) then suc (blocks size) else blocks size))
unfolding tar_size_roundup
tar_size_roundup-blocks size = ground arith

next_offset-Rounded :
    (x : Entry) (s p offset : ℕ)
    → Rounded x
    → p ≡ s + offset
    → p + header_size + 512 * blocks x.size < 2 ^ 64
    → s + next_offset offset x.size ≡ p + header_size + 512 * blocks x.size
unfolding next_offset tar_size_roundup
next_offset-Rounded x s p offset r e small = ground arith

Laid-inside : (m : ℕ → ℕ) (k e p : ℕ) (xs : List Entry) → Laid m k e p xs → p < e
Laid-inside m k e p [] h = h.0
Laid-inside m k e p (x ∷ xs) h = h.5

find_loop-first :
    (f k : ℕ) (t : Tarfs) (m : ℕ → ℕ) (target offset p : ℕ) (name : List ℕ) (xs : List Entry)
    → p ≡ t.tar_start + offset
    → Laid m k t.tar_end p xs
    → All Rounded xs
    → t.tar_end < 2 ^ 63
    → IsString m target name
    → length name < k
    → length xs < f
    → find_loop f k t m target offset ≡ some (first_named p name xs)
unfolding find_loop
find_loop-first zero k t m target offset p name xs e laid rounded small held short fuel =
    absurd (omega arith)
find_loop-first (suc f) k t m target offset p name [] e laid rounded small held short fuel =
    let place : (t.tar_start + offset) % 2 ^ 64 ≡ p = omega arith in
    let inside : ltb p t.tar_end ≡ true = ground (arith, laid.0) in
    rw (place, inside, kstrlen-length k m p [] laid.1 (omega arith))
find_loop-first (suc f) k t m target offset p name (x ∷ xs) e laid rounded small held short fuel =
    let at = Laid-inside m k t.tar_end p (x ∷ xs) laid in
    let next_at = Laid-inside m k t.tar_end _ xs laid.6 in
    let place : (t.tar_start + offset) % 2 ^ 64 ≡ p = omega arith in
    let inside : ltb p t.tar_end ≡ true = ground (arith, at) in
    let named : (length x.name == 0) ≡ false = ground (arith, laid.1) in
    let told = kstrcmp-Tells k m p target x.name name laid.0 held laid.2 short in
    let size : tar_size m (p + size_field) ≡ x.size =
      tar_size-octal x.size m (p + size_field) laid.3 laid.4 in
    rw (place, inside, kstrlen-length k m p x.name laid.0 laid.2, named, told.1, told.2, size)
      (elim (Bool-cases (same_text x.name name)) [
        | inl same ↦ rw same
        | inr differ ↦ rw differ (
            find_loop-first f k t m target (next_offset offset x.size)
              (p + header_size + 512 * blocks x.size) name xs
              (sym (
                next_offset-Rounded x t.tar_start p offset rounded.0 e
                  (omega (arith, next_at, small))))
              laid.6 rounded.1 small held short (omega arith))
      ])

-- In a laid-out archive whose sizes are not positive multiples of 512, the walk ends and finds the
-- first header of the name behind the slash, or nothing when no entry has the name.
pub find_path-first :
    (f k : ℕ) (t : Tarfs) (m : ℕ → ℕ) (path : ℕ) (name : List ℕ) (xs : List Entry)
    → Laid m k t.tar_end t.tar_start xs
    → All Rounded xs
    → t.tar_end < 2 ^ 63
    → IsString m (suc path) name
    → length name < k
    → length xs < f
    → find_path f k t m path ≡ some (first_named t.tar_start name xs)
unfolding find_path
find_path-first f k t m path name xs laid rounded small held short fuel =
    find_loop-first f k t m (suc path) 0 t.tar_start name xs (omega arith) laid rounded small held
      short fuel

-- The size of the first entry of the name, with its address.
abbrev pub size_named : (p : ℕ) → List ℕ → List Entry → Option (ℕ × ℕ)
size_named p name [] = none
size_named p name (x ∷ xs) =
    if same_text x.name name
    then some (p, x.size)
    else size_named (p + header_size + 512 * blocks x.size) name xs

-- The header found has the size of its entry.
Answers : (m : ℕ → ℕ) → Option ℕ → Option (ℕ × ℕ) → Type 0
Answers m none none = Unit
Answers m (some a) (some q) = (a ≡ q.0) × (tar_size m (a + size_field) ≡ q.1)
Answers m none (some q) = ⊥
Answers m (some a) none = ⊥

first_named-Answers :
    (m : ℕ → ℕ) (k e p : ℕ) (name : List ℕ) (xs : List Entry)
    → Laid m k e p xs
    → Answers m (first_named p name xs) (size_named p name xs)
unfolding Answers
first_named-Answers m k e p name [] laid = tt
first_named-Answers m k e p name (x ∷ xs) laid = elim (Bool-cases (same_text x.name name)) [
  | inl same ↦ rw same (refl, tar_size-octal x.size m (p + size_field) laid.3 laid.4)
  | inr differ ↦
      rw differ (first_named-Answers m k e (p + header_size + 512 * blocks x.size) name xs laid.6)
]

-- What the archive promises of a name: a directory is an entry without contents, a file one with.
abbrev pub is_dir : Option (ℕ × ℕ) → ℕ
is_dir none = 0
is_dir (some s) = if s.1 == 0 then 1 else 0

abbrev pub is_file : Option (ℕ × ℕ) → ℕ
is_file none = 0
is_file (some s) = if s.1 == 0 then 0 else 1

-- The next descriptor, for the contents behind the header, read from the start; or -1.
abbrev pub opened : Pcb → Option (ℕ × ℕ) → ℕ × Pcb
opened proc none = (2 ^ 32 - 1, proc)
opened proc (some s) = (
  proc.next_fd,
  record proc {
    next_fd = suc proc.next_fd;
    fd_table =
        update proc.fd_table proc.next_fd
          (record { file_start_address = s.0 + 512; file_size = s.1; file_offset = 0 });
  },
)

Answers-cases :
    (m : ℕ → ℕ) (a : Option ℕ) (q : Option (ℕ × ℕ))
    → Answers m a q
    → (dir_answer m a ≡ is_dir q)
      × (open_answer m a ≡ is_file q)
      × ((proc : Pcb) → open_file_at m proc a ≡ opened proc q)
unfolding Answers dir_answer open_answer open_file_at add_fd update
Answers-cases m none none h = (refl, refl, λ proc. refl)
Answers-cases m (some a) (some q) h =
    (rw h.1, rw h.1, λ proc. ap₂ (λ (u v : ℕ). opened proc (some (u, v))) h.0 h.1)
Answers-cases m none (some q) h = absurd h
Answers-cases m (some a) none h = absurd h

module _ (f k : ℕ) (t : Tarfs) (m : ℕ → ℕ) (path : ℕ) (name : List ℕ) (xs : List Entry)
    (laid : Laid m k t.tar_end t.tar_start xs) (rounded : All Rounded xs)
    (small : t.tar_end < 2 ^ 63) (held : IsString m (suc path) name) (short : length name < k)
    (fuel : length xs < f) where
  -- In a laid-out archive whose sizes are not positive multiples of 512, `search_for_dir` ends and
  -- answers 1 exactly when the first
  -- entry of the name is empty.
  pub search_for_dir-is_dir :
      search_for_dir f k t m path ≡ some (is_dir (size_named t.tar_start name xs))
  unfolding search_for_dir
  search_for_dir-is_dir =
      rw (find_path-first f k t m path name xs laid rounded small held short fuel) (
        ap some
          (Answers-cases m _ _ (first_named-Answers m k t.tar_end t.tar_start name xs laid)).0)

  -- In a laid-out archive whose sizes are not positive multiples of 512, `search_file_open` ends and
  -- answers 1 exactly when the first entry of the name has
  -- contents.
  pub search_file_open-is_file :
      search_file_open f k t m path ≡ some (is_file (size_named t.tar_start name xs))
  unfolding search_file_open
  search_file_open-is_file =
      rw (find_path-first f k t m path name xs laid rounded small held short fuel) (
        ap some
          (Answers-cases m _ _ (first_named-Answers m k t.tar_end t.tar_start name xs laid)).1)

  -- In a laid-out archive whose sizes are not positive multiples of 512, `do_open_file` ends; it returns the next descriptor, set to the contents and
  -- the size of the first entry of the name, or -1 with the process unchanged.
  pub do_open_file-opened :
      (proc : Pcb)
      → do_open_file f k t m proc path ≡ some (opened proc (size_named t.tar_start name xs))
  unfolding do_open_file
  do_open_file-opened proc =
      rw (find_path-first f k t m path name xs laid rounded small held short fuel) (
        ap some (
          (Answers-cases m _ _ (first_named-Answers m k t.tar_end t.tar_start name xs laid)).2
            proc))
