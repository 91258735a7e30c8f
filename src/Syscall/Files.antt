-- ===== src/Syscall/Files.antt =====
-- sys/systemcall.c: the calls on files and directories. `m` is the memory by byte, `wd` the address of
-- the active process's `wd` in it, and `path_buffer` that of `abspath`. The other addresses and the
-- bounds are those of Paths and Tar.
use my_sbuos.Base.{
  ℕ, ◌+◌, ◌-◌, ◌%◌, ◌^◌, not, ◌&&◌, ◌||◌, Option, none, some, leb, ◌==◌, if◌then◌else◌, ◌>>=◌,
  update,
}
use my_sbuos.Text.{minus_one, kstrlen, kstrcpy, kstrcmp}
use my_sbuos.Paths.{Literals, slash, path_merge}
use my_sbuos.Process.{Kernel, Pcb, waiting, schedule}
use my_sbuos.Process.Info.{PsInfo, get_process_info}
use my_sbuos.Stdin.{Stdin, buffer_is_ready, copy_input}
use my_sbuos.Tar.{
  Tarfs, search_for_dir, search_file_open, do_open_file, do_open_dir, read_to_buffer,
}
use my_sbuos.Tar.Dents.{fill_dents}
use my_sbuos.Syscall.{failed, set_active}

-- The bounds of the loops and the fixed addresses.
pub record Place : Type 0 where
  pub f : ℕ
  pub k : ℕ
  pub tarfs : Tarfs
  pub literals : Literals
  pub temp : ℕ
  pub path_buffer : ℕ
  pub wd : ℕ

pub do_getcwd : Place → (buffer size : ℕ) → (ℕ → ℕ) → Option (ℕ × (ℕ → ℕ))
do_getcwd e buffer size m =
    kstrcpy e.k buffer e.wd size m >>= λ r. some (if r.0 == minus_one then 0 else buffer, r.1)

-- A read either hands bytes over or gives up the processor; after the switch back the loop of the
-- source begins again, which is another `do_read`.
pub data ReadResult : Type 0 where
  done : (n : ℕ) (m : ℕ → ℕ) (s : Stdin) (k : Kernel) → ReadResult
  blocked : (rsp : ℕ) (k : Kernel) → ReadResult

-- the caller's bytes from `buffer` on, replaced
abbrev pub put_back : (buffer : ℕ) → (out m : ℕ → ℕ) → ℕ → ℕ
put_back buffer out m a = if leb buffer a then out (a - buffer) else m a

pub block_on_stdin : Kernel → Kernel
block_on_stdin k = set_active (λ p. record p { status = waiting; waiting_on_stdin = 255 }) k

pub do_read : (fuel rsp fd buffer size : ℕ) → (ℕ → ℕ) → Stdin → Kernel → Option ReadResult
do_read fuel rsp fd buffer size m s k =
    let proc = k.pcbs k.active in
    let file = read_to_buffer (proc.fd_table fd) buffer size m in
    if (fd == 0) && ((proc.fd_table 0).file_start_address == 0)
    then if buffer_is_ready s
      then (copy_input fuel (size % 2 ^ 32) (λ i. m (buffer + i)) s >>= λ r.
          some (done r.0 (put_back buffer r.1 m) r.2 k))
      else (schedule fuel rsp (block_on_stdin k) >>= λ r. some (blocked r.0 r.1))
    else some (
        done file.0 file.2 s
          (set_active (λ p. record p { fd_table = update p.fd_table fd file.1 }) k))

pub do_chdir : Place → (dirname : ℕ) → (ℕ → ℕ) → Option (ℕ × (ℕ → ℕ))
do_chdir e dirname m =
    path_merge e.f e.k e.temp e.literals e.wd dirname e.path_buffer 100 m >>= λ merged.
    kstrlen e.k merged e.path_buffer >>= λ l.
    let m' = update (update merged (e.path_buffer + l) slash) (e.path_buffer + l + 1) 0 in
    kstrcmp e.k m' e.path_buffer e.literals.root >>= λ r.
    search_for_dir e.f e.k e.tarfs m' e.path_buffer >>= λ found.
    if (r == 0) || not (found == 0)
    then (kstrcpy e.k e.wd e.path_buffer 100 m' >>= λ c. some (0, c.1))
    else some (1, m')

abbrev pub o_rdonly : ℕ
o_rdonly = 0

abbrev pub o_directory : ℕ
o_directory = 65536

-- `abspath` with a slash at its end, when it has none.
pub end_with_slash : (path_buffer l : ℕ) → (ℕ → ℕ) → ℕ → ℕ
end_with_slash path_buffer l m =
    if m (path_buffer + l - 1) == slash
    then m
    else update (update m (path_buffer + l) slash) (path_buffer + l + 1) 0

-- The number returned, the process and the memory. In another mode the source never returns.
pub do_open : Place → (path mode : ℕ) → Pcb → (ℕ → ℕ) → Option (ℕ × Pcb × (ℕ → ℕ))
do_open e path mode proc m =
    path_merge e.f e.k e.temp e.literals e.wd path e.path_buffer 100 m >>= λ merged.
    let as_file = search_file_open e.f e.k e.tarfs merged e.path_buffer >>= λ found.
    do_open_file e.f e.k e.tarfs merged proc e.path_buffer >>= λ r.
    some (if found == 0 then (failed, proc, merged) else (r.0, r.1, merged)) in
    let as_dir = kstrlen e.k merged e.path_buffer >>= λ l.
    let m' = end_with_slash e.path_buffer l merged in
    kstrcmp e.k m' e.path_buffer e.literals.root >>= λ r.
    search_for_dir e.f e.k e.tarfs m' e.path_buffer >>= λ found.
    do_open_dir e.f e.k e.tarfs m' e.literals.root proc e.path_buffer >>= λ q.
    some (if (r == 0) || not (found == 0) then (q.0, q.1, m') else (failed, proc, m')) in
    if mode == o_rdonly then as_file else if mode == o_directory then as_dir else none

pub do_getdents : Place → (no_text fd buffer size : ℕ) → Kernel → (ℕ → ℕ) → Option (ℕ × (ℕ → ℕ))
do_getdents e no_text fd buffer size k m =
    fill_dents e.f e.k e.tarfs no_text ((k.pcbs k.active).fd_table fd).file_start_address buffer
      size m

pub do_getps : (size : ℕ) → Kernel → (ℕ → PsInfo) → Option (ℕ × (ℕ → PsInfo))
do_getps size k buffer = get_process_info size k buffer
