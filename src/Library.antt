-- ===== src/Library.antt =====
-- libc/stdlib.c and include/syscall.h: the wrappers of the system calls. The kernel stands behind `int80`,
-- the instruction of `syscall_0` to `syscall_3`, which takes the number of the call in `rax` and three
-- registers, and gives back `rax` with the world it leaves; `none` is a call that does not return. The
-- registers that a call of fewer arguments does not set hold `rdi`, `rsi` and `rdx`.
use my_sbuos.Base.{ℕ, ◌-◌, ◌%◌, ◌^◌, Option, some, List, ◌>>=◌}
use my_sbuos.Format.{Output, printf_user}
use my_sbuos.Directory.{int_to_long}

-- What a program is given: the kernel, the memory of the process by byte, and the state of the library's
-- `printf`, its buffer and the console, with the fuel for one call of it.
pub record Host {ℓ} (S : Type ℓ) : Type ℓ where
  pub int80 : (rax rdi rsi rdx : ℕ) → S → Option (ℕ × S)
  pub memory : S → ℕ → ℕ
  pub output : S → Output
  pub set_output : Output → S → S
  pub print_fuel : ℕ
  pub rdi : ℕ
  pub rsi : ℕ
  pub rdx : ℕ

module _ {ℓ} {S : Type ℓ} (host : Host S) where
  -- `printf`, which begins at the start of its buffer with nothing printed.
  unfoldable pub print : (format : ℕ) (args : List ℕ) → S → Option S
  print format args s =
      printf_user host.print_fuel (host.memory s) format args
        (record (host.output s) { str_array = 0; printed = 0 })
      >>= λ o. some (host.set_output o s)

  pub syscall_0 : (n : ℕ) → S → Option (ℕ × S)
  syscall_0 n s = host.int80 n host.rdi host.rsi host.rdx s

  pub syscall_1 : (n a1 : ℕ) → S → Option (ℕ × S)
  syscall_1 n a1 s = host.int80 n a1 host.rsi host.rdx s

  unfoldable pub syscall_2 : (n a1 a2 : ℕ) → S → Option (ℕ × S)
  syscall_2 n a1 a2 s = host.int80 n a1 a2 host.rdx s

  pub syscall_3 : (n a1 a2 a3 : ℕ) → S → Option (ℕ × S)
  syscall_3 n a1 a2 a3 s = host.int80 n a1 a2 a3 s

  -- The answer as 32 bits: an `int`, a `pid_t` or an `unsigned int`.
  abbrev low : ℕ × S → Option (ℕ × S)
  low r = some (r.0 % 2 ^ 32, r.1)

  -- The source goes on when the call comes back, with no result.
  pub exit : (status : ℕ) → S → Option S
  exit status s = syscall_1 60 (int_to_long status) s >>= λ r. some r.1

  pub yield : S → Option S
  yield s = syscall_0 24 s >>= λ r. some r.1

  pub sleep : (seconds : ℕ) → S → Option (ℕ × S)
  sleep seconds s = syscall_1 37 seconds s >>= low

  pub fork : S → Option (ℕ × S)
  fork s = syscall_0 57 s >>= low

  pub getpid : S → Option (ℕ × S)
  getpid s = syscall_0 39 s >>= low

  pub getppid : S → Option (ℕ × S)
  getppid s = syscall_0 110 s >>= low

  -- `errno`, the answer -1 and the world.
  pub execve : (filename argv envp : ℕ) → S → Option (ℕ × ℕ × S)
  execve filename argv envp s = syscall_3 59 filename argv envp s >>= λ r.
      some ((2 ^ 32 - r.0 % 2 ^ 32) % 2 ^ 32, 2 ^ 32 - 1, r.1)

  pub waitpid : (pid status options : ℕ) → S → Option (ℕ × S)
  waitpid pid status options s = syscall_3 61 pid status (int_to_long options) s >>= low

  unfoldable pub kill : (pid sig : ℕ) → S → Option (ℕ × S)
  kill pid sig s = syscall_2 62 pid (int_to_long sig) s >>= low

  pub alarm : (seconds : ℕ) → S → Option (ℕ × S)
  alarm seconds s = syscall_1 37 seconds s >>= low

  pub getcwd : (buf size : ℕ) → S → Option (ℕ × S)
  getcwd buf size s = syscall_2 79 buf size s

  pub chdir : (path : ℕ) → S → Option (ℕ × S)
  chdir path s = syscall_1 80 path s >>= low

  pub open_ : (pathname flags : ℕ) → S → Option (ℕ × S)
  open_ pathname flags s = syscall_2 2 pathname (int_to_long flags) s >>= low

  pub read : (fd buf count : ℕ) → S → Option (ℕ × S)
  read fd buf count s = syscall_3 0 (int_to_long fd) buf count s

  pub write : (fd buf count : ℕ) → S → Option (ℕ × S)
  write fd buf count s = syscall_3 1 (int_to_long fd) buf count s

  pub lseek : (fildes offset whence : ℕ) → S → Option (ℕ × S)
  lseek fildes offset whence s = syscall_3 8 (int_to_long fildes) offset (int_to_long whence) s

  pub close : (fd : ℕ) → S → Option (ℕ × S)
  close fd s = syscall_1 3 (int_to_long fd) s >>= low

  pub dup : (oldfd : ℕ) → S → Option (ℕ × S)
  dup oldfd s = syscall_1 32 (int_to_long oldfd) s >>= low

  pub dup2 : (oldfd newfd : ℕ) → S → Option (ℕ × S)
  dup2 oldfd newfd s = syscall_2 33 (int_to_long oldfd) (int_to_long newfd) s >>= low

  pub get_ps : (buffer size : ℕ) → S → Option (ℕ × S)
  get_ps buffer size s = syscall_2 100 buffer (int_to_long size) s >>= low
