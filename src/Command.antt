-- ===== src/Command.antt =====
-- bin/sbush/sbushell.c and bin/sbush/ioutil.c: one command of the shell, and the loop over them. The world
-- of the C library's calls is the shell's environment. The arrays of pointers that `execve` reads are
-- handed over by their addresses. `f` bounds the loops over strings, variables and commands.
pub mod Search
mod Tests
use my_sbuos.Base.{
  ℕ, zero, suc, ◌+◌, ◌-◌, ◌*◌, ◌/◌, ◌%◌, ◌^◌, ◌≤◌, ◌<◌, ◌≡◌, refl, sym, ap, ap₂, ◌∙◌, ◌≢◌, ◌⊎◌, inl,
  inr, Bool, true, false, not, ◌&&◌, ◌||◌, Option, none, some, List, [], ◌∷◌, ◌++◌, map, append-nil,
  append_assoc, arith, ltb, leb, ◌==◌, if◌then◌else◌, Bool-cases, Option-cases, ◌>>=◌, ltb→lt,
  lt→ltb, leb→le, eq→==, ne→==, ==_iff, length, get_or, length-append, All, All-append, NotIn,
  Distinct, NotIn-append, Distinct-snoc, mem, NotIn-of_mem, mem_of_NotIn, mem-append, update,
  update_self, update_other, Holds, Holds-agree, Holds-append, Holds-append_left,
  Holds-append_right, subst,
}
use my_sbuos.Exec.{load}
use my_sbuos.Shell.{none_found, shift, strlen, strsearch, strprefix, strcomp, itoa, strcat}
use my_sbuos.Environment.{
  Environment, Literals, allocate, set_byte, str_split_line, var_set, getusrnm, get_path, get_envp,
  parse_envp,
}
use my_sbuos.Environment.Split.{strsplit}
use my_sbuos.Prompt.{Buffers, get_formatted_prompt, process_command}
use my_sbuos.Directory.{int_to_long}
use my_sbuos.Library.{Host, print, exit, fork, execve, waitpid, getcwd, chdir, read, write}

-- The addresses of the globals and of the literals.
pub record Shell : Type 0 where
  pub literals : Literals
  pub buffers : Buffers
  pub buffer : ℕ
  pub joined_filename : ℕ
  pub envp_copy : ℕ
  pub last_command_status : ℕ
  pub cd_space : ℕ
  pub exit_word : ℕ
  pub slash_text : ℕ
  pub no_directory : ℕ
  pub no_command : ℕ
  pub end_of_input : ℕ

abbrev pub buffer_size : ℕ
buffer_size = 250

abbrev pub dir_name_len : ℕ
dir_name_len = 250

-- What `do_command` returns, and whether `exit_yet` has been set.
pub record Done : Type 0 where
  pub status : ℕ
  pub exit_yet : Bool
  pub environment : Environment

abbrev set_memory : (ℕ → ℕ) → Environment → Environment
set_memory m s = record s { memory = m }

-- The `int` at an address.
abbrev pub load_int : (s : Environment) (p : ℕ) → ℕ
load_int s p = load 4 s.memory p

-- The four bytes of an `int`.
abbrev pub store_int : (p v : ℕ) → (ℕ → ℕ) → ℕ → ℕ
store_int p v m =
    update
      (update (update (update m p (v % 256)) (p + 1) (v / 256 % 256)) (p + 2) (v / 65536 % 256))
      (p + 3) (v / 16777216 % 256)

-- The first argument: the null pointer, when there is none.
abbrev pub first_argument : List ℕ → ℕ
first_argument [] = 0
first_argument (a ∷ rest) = a

abbrev done_with : (status : ℕ) → Environment → Option Done
done_with status s = some (record { status = status; exit_yet = false; environment = s })

module _ (host : Host Environment) (g : Shell) where
  -- The loop over the path in the child: each element, a slash and the name, and `execve`. It goes on
  -- when `execve` comes back.
  pub try_path : (elements : List ℕ) → (name argv : ℕ) → Environment → Option Environment
  try_path [] name argv s = some s
  try_path (e ∷ es) name argv s =
      let m1 = (strcat e g.slash_text g.joined_filename dir_name_len s.memory).1 in
      let m2 = (strcat g.joined_filename name g.joined_filename dir_name_len m1).1 in
      execve host g.joined_filename argv g.envp_copy (set_memory m2 s) >>= λ r.
      try_path es name argv r.2

  -- `printf("No command or binary found: '%s'\n", argv[0]); exit(1);`
  pub not_found : (name : ℕ) → Environment → Option Environment
  not_found name s = print host g.no_command (name ∷ []) s >>= exit host 1

  -- The child; `str_free_splitted_list` only calls `free`, which is empty.
  pub run_child : (f command argv name : ℕ) → Environment → Option Environment
  run_child f command argv name s =
      let c = s.memory command in
      let direct = execve host name argv g.envp_copy s >>= λ r. not_found name r.2 in
      (if (c == 46) || (c == 47) then direct else some s) >>= λ s1.
      get_path f g.literals s1 >>= λ path.
      strsplit f path 58 s1 >>= λ list. try_path list.1 name argv list.2 >>= not_found name

  -- From `fork` on.
  pub run_program : (f command argv name : ℕ) (bg : Bool) → Environment → Option Done
  run_program f command argv name bg s = get_envp f s >>= λ s1. fork host s1 >>= λ pid.
      elim (pid.0 == 0) [
        | true ↦ run_child f command argv name pid.1 >>= done_with 0
        | false ↦ elim bg [
          | true ↦ done_with 0 pid.1
          | false ↦ waitpid host pid.0 g.last_command_status 0 pid.1 >>= λ r.
              done_with (load_int r.1 g.last_command_status) r.1
        ]
      ]

  -- `NAME=VALUE`; the halves are freed, which does nothing.
  pub assign : (f pos name : ℕ) → Environment → Option Done
  assign f pos name s =
      let halves = str_split_line name pos s in
      var_set f halves.0 halves.1 halves.2 >>= λ s'. done_with 0 s'

  pub change_directory : (dir : ℕ) → Environment → Option Done
  change_directory dir s = chdir host dir s >>= λ r.
      if r.0 == 0
      then done_with 0 r.1
      else (print host g.no_directory (dir ∷ []) r.1 >>= λ s'. done_with none_found s')

  pub do_command : (f command : ℕ) → Environment → Option Done
  do_command f command s =
      let last = shift command ((strlen s.memory command + (2 ^ 32 - 1)) % 2 ^ 32) in
      let bg = s.memory last == 38 in
      let cut = if bg then set_byte last 0 s else s in
      let program = strsplit f command 32 cut >>= λ argv.
      let name = first_argument argv.1 in
      let pos = strsearch argv.2.memory name 61 in
      (if pos == none_found
        then run_program f command argv.0 name bg argv.2
        else assign f pos name argv.2) in
      if not (strprefix s.memory g.cd_space command == 0)
      then change_directory (command + 3) s
      else if strcomp s.memory g.exit_word command == 0
      then some (record { status = 0; exit_yet = true; environment = s })
      else program

  pub make_prompt : (f : ℕ) → Environment → Option Environment
  make_prompt f s = getcwd host g.buffers.cwd dir_name_len s >>= λ r.
      let status = itoa g.buffers.status_str (load_int r.1 g.last_command_status) r.1.memory in
      getusrnm f g.literals g.buffers.user_name_str 30 (set_memory status r.1) >>= λ u.
      get_formatted_prompt f g.literals g.buffers u.1

  pub readline : (buffer prompt : ℕ) → Environment → Option (ℕ × Environment)
  readline buffer prompt s = write host 1 prompt (int_to_long (strlen s.memory prompt)) s >>= λ w.
      read host 0 buffer buffer_size w.1 >>= λ r. some (r.0 % 2 ^ 32, r.1)

  -- `while(!exit_yet)`.
  pub command_loop : (f rounds : ℕ) → Environment → Option (ℕ × Environment)
  command_loop f zero s = none
  command_loop f (suc n) s = make_prompt f s >>= readline g.buffer g.buffers.prompt >>= λ line.
      let found = process_command g.buffer line.1.memory in
      let read_line = set_memory found.1 line.1 in
      elim (found.0 == 0) [
        | false ↦ print host g.end_of_input [] read_line >>= λ s'. some (0, s')
        | true ↦ do_command f g.buffer read_line >>= λ d.
            let kept = store_int g.last_command_status d.status d.environment.memory in
            let next = set_memory kept d.environment in
            elim d.exit_yet [ true ↦ some (0, next) | false ↦ command_loop f n next ]
      ]

  pub shell_main : (f rounds : ℕ) (envp : List ℕ) → Environment → Option (ℕ × Environment)
  shell_main f rounds envp s = parse_envp f g.literals envp s >>= command_loop f rounds
