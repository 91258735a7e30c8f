-- ===== src/Tar/Tests.antt =====
-- The theorems of the archive at an archive of one file "f" with the contents "a\nb" at 600.
use my_sbuos.Base.{
  update, ℕ, ◌≡◌, refl, inr, ◌&&◌, some, List, [], ◌∷◌, arith, ltb, leb, ◌==◌, if◌then◌else◌, All,
  Holds,
}
use my_sbuos.Text.Strings.{IsString}
use my_sbuos.Process.{Pcb, FileDesc, ready}
use my_sbuos.Tar.{Tarfs, tar_size, do_open_file, read_to_buffer}
use my_sbuos.Tar.Octal.{octal, tar_size-octal}
use my_sbuos.Tar.Find.{Entry, Laid, Rounded, do_open_file-opened}
use my_sbuos.Tar.Read.{IsRead, read_to_buffer-line}

abbrev archive : Tarfs
archive = record { tar_start = 1000; tar_end = 3000 }

-- The size field holds "00000000003"; the path "/f" stands at 10.
abbrev memory : ℕ → ℕ
memory i =
    if i == 10
    then 47
    else if i == 11
    then 102
    else if i == 1000
    then 102
    else if i == 1134
    then 51
    else if leb 1124 i && ltb i 1134
    then 48
    else if i == 1512
    then 97
    else if i == 1513
    then 10
    else if i == 1514
    then 98
    else 0

abbrev entries : List Entry
entries = record { name = 102 ∷ []; size = 3 } ∷ []

digits : Holds memory 1124 (octal 11 3)
digits = (refl, (refl, (refl, (refl, (refl, (refl, (refl, (refl, (refl, (refl, (refl, tt)))))))))))

tar_size-octal_example : tar_size memory 1124 ≡ 3
tar_size-octal_example = tar_size-octal 3 memory 1124 (omega arith) digits

entries-Laid : Laid memory 5 3000 1000 entries
entries-Laid = (
  record { bytes = ((omega arith, omega arith), tt); held = (refl, (refl, tt)) },
  omega arith,
  omega arith,
  omega arith,
  digits,
  omega arith,
  (omega arith, record { bytes = tt; held = (refl, tt) }),
)

entries-Rounded : All Rounded entries
entries-Rounded = (inr (omega arith), tt)

path-IsString : IsString memory 11 (102 ∷ [])
path-IsString = record { bytes = ((omega arith, omega arith), tt); held = (refl, (refl, tt)) }

abbrev empty : FileDesc
empty = record { file_start_address = 0; file_size = 0; file_offset = 0 }

abbrev block : Pcb
block = record {
  pid = 1;
  ppid = 0;
  pml4 = 0;
  user_sp = 0;
  user_brk_point = 0;
  kernel_sp = 0;
  kernel_stack = 0;
  ip = 0;
  pname = [];
  wd = [];
  waiting_on_stdin = 0;
  waiting_on_pid = 0;
  waiting_on_clock = 0;
  exit_notify_status = 0;
  status_return = 0;
  status = ready;
  fd_table = λ i. empty;
  next_fd = 3;
}

do_open_file-opened_example :
    do_open_file 2 5 archive memory block 10
    ≡ some (
      3,
      record block {
        next_fd = 4;
        fd_table =
            update block.fd_table 3
              (record { file_start_address = 1512; file_size = 3; file_offset = 0 });
      },
    )
do_open_file-opened_example =
    do_open_file-opened 2 5 archive memory 10 (102 ∷ []) entries entries-Laid entries-Rounded
      (omega arith) path-IsString (omega arith) (omega arith) block

abbrev open_file : FileDesc
open_file = record { file_start_address = 1512; file_size = 3; file_offset = 0 }

read_to_buffer-line_example :
    (m' : ℕ → ℕ) × (read_to_buffer open_file 20 8 memory
      ≡ (2, record open_file { file_offset = 2 }, m'))
    × IsRead memory m' 20 (97 ∷ 10 ∷ [])
read_to_buffer-line_example =
    read_to_buffer-line open_file 20 8 97 (10 ∷ 98 ∷ []) memory (refl, (refl, (refl, tt))) refl
      (omega arith) (omega arith) (omega arith)
