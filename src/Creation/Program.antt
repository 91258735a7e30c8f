-- ===== src/Creation/Program.antt =====
-- sys/systemcall.c and sys/process_helpers.c: `do_execve`, which puts a program in place of the caller's, and
-- `prepare_user_memory`, which loads it when the process runs first. The texts of paths and the segments
-- of a program are bytes, `m`; stacks and tables are words of the memory behind the page tables.
use my_sbuos.Base.{ℕ, zero, suc, ◌-◌, Option, none, some, List, [], ◌∷◌, ◌==◌, if◌then◌else◌, ◌>>=◌}
use my_sbuos.Process.{running}
use my_sbuos.Paths.{path_merge}
use my_sbuos.Tar.{Tarfs}
use my_sbuos.Exec.{search_file_for_exec, map_file}
use my_sbuos.Virtual.{self_table, write_word}
use my_sbuos.Syscall.Files.{Place}
use my_sbuos.Creation.{System, Entries, set_cr3, set_pcb, process_exec}

-- The bytes of the string at `p`.
pub text_at : (k : ℕ) → (m : ℕ → ℕ) (p : ℕ) → Option (List ℕ)
text_at zero m p = none
text_at (suc k) m p =
    let rest = text_at k m (suc p) >>= λ xs. some (m p ∷ xs) in if m p == 0 then some [] else rest

-- The first entry of the root is cleared, through the root's own slot: the caller's memory is gone.
pub do_execve :
    Place
    → Entries
    → (fuel rsp filename : ℕ) (argv envp : List ℕ) → (ℕ → ℕ)
    → System
    → Option (ℕ × (ℕ → ℕ) × System)
do_execve e en fuel rsp filename argv envp m s =
    path_merge e.f e.k e.temp e.literals e.wd filename e.path_buffer 100 m >>= λ merged.
    search_file_for_exec e.f e.k e.tarfs merged e.path_buffer >>= λ found.
    let started = text_at e.k merged e.path_buffer >>= λ abspath.
    write_word self_table 0 s.space >>= λ space.
    process_exec en fuel rsp s.kernel.active abspath argv envp (record s { space = space }) >>= λ r.
    some (r.0, merged, r.1) in
    if found == 0 then some (1, merged, s) else started

-- `pname` is the address of the process's name.
pub prepare_user_memory :
    (f k : ℕ) → Tarfs → (pname process : ℕ) → (ℕ → ℕ) → System → Option ((ℕ → ℕ) × System)
prepare_user_memory f k t pname process m s =
    let block = s.kernel.pcbs process in
    let switched = set_cr3 block.pml4 s in
    map_file f k t m pname >>= λ r. write_word (block.user_sp - 8) 0 switched.space >>= λ space.
    some (
      r.1,
      set_pcb process (record block { ip = r.0; status = running })
          (record switched { space = space }),
    )
