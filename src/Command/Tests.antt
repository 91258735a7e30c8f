-- ===== src/Command/Tests.antt =====
-- The path element "/b" and the name "ls".
use my_sbuos.Base.{refl, some, [], ◌∷◌, ◌++◌, arith, get_or}
use my_sbuos.Text.Strings.{IsString}
use my_sbuos.Process.Sample.{sample_block, sample_kernel}
use my_sbuos.Environment.{Environment}
use my_sbuos.Format.{Output}
use my_sbuos.Library.{Host}
use my_sbuos.Command.{Shell, try_path}
use my_sbuos.Command.Search.{Runs, try_path-Runs}

-- "/b" at 0, "/" at 3 and "ls" at 5
abbrev shell : Environment
shell = record {
  memory = λ a. get_or (47 ∷ 98 ∷ 0 ∷ 47 ∷ 0 ∷ 108 ∷ 115 ∷ 0 ∷ []) a 0;
  nodes = λ p. record { varname = 0; varval = 0; next = 0 };
  head = 1000;
  tail = 1000;
  envp_copy = λ i. 0;
  kernel = sample_kernel (sample_block 4096);
}

abbrev silent : Output
silent = record {
  buffer = λ i. 0;
  str_array = 0;
  printed = 0;
  console = record { row = 0; col = 0; display = λ i. 0 };
}

-- A kernel that finds no file, and a console that keeps nothing.
abbrev host : Host Environment
host = record {
  int80 = λ rax rdi rsi rdx s. some (1, s);
  memory = λ s. s.memory;
  output = λ s. silent;
  set_output = λ o s. s;
  print_fuel = 100;
  rdi = 0;
  rsi = 0;
  rdx = 0;
}

abbrev globals : Shell
globals = record {
  literals = record {
    ps1 = 0;
    ps1_value = 0;
    path = 0;
    path_value = 0;
    user = 0;
    user_value = 0;
    space = 0;
  };
  buffers = record { prompt = 0; cwd = 0; status_str = 0; user_name_str = 0 };
  buffer = 0;
  joined_filename = 100;
  envp_copy = 0;
  last_command_status = 0;
  cd_space = 0;
  exit_word = 0;
  slash_text = 3;
  no_directory = 0;
  no_command = 0;
  end_of_input = 0;
}

directory-IsString : IsString shell.memory 0 (47 ∷ 98 ∷ [])
directory-IsString = record {
  bytes = ((omega arith, omega arith), ((omega arith, omega arith), tt));
  held = (refl, (refl, (refl, tt)));
}

slash-IsString : IsString shell.memory 3 (47 ∷ [])
slash-IsString = record { bytes = ((omega arith, omega arith), tt); held = (refl, (refl, tt)) }

name-IsString : IsString shell.memory 5 (108 ∷ 115 ∷ [])
name-IsString = record {
  bytes = ((omega arith, omega arith), ((omega arith, omega arith), tt));
  held = (refl, (refl, (refl, tt)));
}

try_path-Runs_example :
    Runs host globals
      ((47 ∷ 98 ∷ 47 ∷ []) ++ 108 ∷ 115 ∷ [])
      []
      5
      300
      shell
      (try_path host globals (0 ∷ []) 5 300 shell)
try_path-Runs_example =
    try_path-Runs host globals 0 5 300 [] (47 ∷ 98 ∷ []) (108 ∷ 115 ∷ []) shell directory-IsString
      slash-IsString name-IsString (omega arith) (omega arith) (omega arith) (omega arith)
