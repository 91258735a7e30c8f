-- ===== src/Syscall/Dispatch.antt =====
-- `do_system_call` of sys/systemcall.c: which handler a code selects, and with which arguments.
use my_sbuos.Base.{◌≡◌, refl, ℕ, Option, none, some, ◌==◌, if◌then◌else◌}

-- A handler with its arguments.
pub data Call : Type 0 where
  call_break : (arg1 : ℕ) → Call
  call_getcwd : (buffer size : ℕ) → Call
  call_write : (fd buffer size : ℕ) → Call
  call_read : (fd buffer size : ℕ) → Call
  call_fork : Call
  call_waitpid : (pid status_return options : ℕ) → Call
  call_execve : (filename argv envp : ℕ) → Call
  call_exit : (status : ℕ) → Call
  call_chdir : (dirname : ℕ) → Call
  call_open : (path mode : ℕ) → Call
  call_getdents : (fd buffer size : ℕ) → Call
  call_close : (fd : ℕ) → Call
  call_alarm : (seconds : ℕ) → Call
  call_getps : (buffer size : ℕ) → Call
  call_kill : (pid sig : ℕ) → Call
  call_yield : Call

-- `none`: a code without a handler, where the source never returns.
pub do_system_call : (syscall_code arg1 arg2 arg3 : ℕ) → Option Call
do_system_call code a b c =
    if code == 12
    then some (call_break a)
    else if code == 79
    then some (call_getcwd a b)
    else if code == 1
    then some (call_write a b c)
    else if code == 0
    then some (call_read a b c)
    else if code == 57
    then some call_fork
    else if code == 61
    then some (call_waitpid a b c)
    else if code == 59
    then some (call_execve a b c)
    else if code == 60
    then some (call_exit a)
    else if code == 80
    then some (call_chdir a)
    else if code == 2
    then some (call_open a b)
    else if code == 78
    then some (call_getdents a b b)
    else if code == 3
    then some (call_close a)
    else if code == 37
    then some (call_alarm a)
    else if code == 100
    then some (call_getps a b)
    else if code == 62
    then some (call_kill a b)
    else if code == 24
    then some call_yield
    else none

pub do_system_call-kill : (a b c : ℕ) → do_system_call 62 a b c ≡ some (call_kill a b)
unfolding do_system_call
do_system_call-kill a b c = refl
