-- ===== src/Programs.antt =====
-- bin/kill, bin/sleep, bin/cat, bin/ps, bin/echo, bin/ls and crt/crt1.c: the small programs, over the C
-- library. An address of a program's text or data is a field of `Texts`.
pub mod Number
pub mod Sent
pub mod Listed
mod Tests
use my_sbuos.Base.{
  ℕ, zero, suc, ◌+◌, ◌-◌, ◌*◌, ◌/◌, ◌%◌, ◌^◌, ◌≤◌, ◌<◌, ◌≡◌, refl, sym, ap, ap₂, ◌∙◌, ◌≢◌, ◌⊎◌, inl,
  inr, Bool, true, false, not, ◌&&◌, ◌||◌, Option, none, some, List, [], ◌∷◌, ◌++◌, map, append-nil,
  append_assoc, arith, ltb, leb, ◌==◌, if◌then◌else◌, Bool-cases, Option-cases, ◌>>=◌, ltb→lt,
  lt→ltb, leb→le, eq→==, ne→==, ==_iff, length, get_or, length-append, All, All-append, NotIn,
  Distinct, NotIn-append, Distinct-snoc, mem, NotIn-of_mem, mem_of_NotIn, mem-append, update,
  update_self, update_other, Holds, Holds-agree, Holds-append, Holds-append_left,
  Holds-append_right, subst,
}
use my_sbuos.Directory.{Dir, readdir}
use my_sbuos.Library.{Host, print, exit, sleep, kill, open_, read, close, get_ps}

-- The formats of the messages, and the array `buffer`.
pub record Texts : Type 0 where
  pub need_argument : ℕ
  pub no_process : ℕ
  pub failed_to_open : ℕ
  pub string_format : ℕ
  pub ps_head : ℕ
  pub ps_line : ℕ
  pub argc_line : ℕ
  pub argv_line : ℕ
  pub envp_line : ℕ
  pub name_line : ℕ
  pub no_listing : ℕ
  pub buffer : ℕ

-- `s[i] - '0'` for a signed `char`, as 32 bits.
abbrev pub digit_of : (c : ℕ) → ℕ
digit_of c = if ltb c 128 then (c + (2 ^ 32 - 48)) % 2 ^ 32 else c + (2 ^ 32 - 256 - 48)

-- `left` characters are left; the sum wraps.
pub atoi_loop : (left : ℕ) → (m : ℕ → ℕ) (s i res : ℕ) → ℕ
atoi_loop zero m s i res = res
atoi_loop (suc n) m s i res =
    let rest = atoi_loop n m s (suc i) ((res * 10 + digit_of (m (s + i))) % 2 ^ 32) in
    if m (s + i) == 0 then res else rest

pub atoi : (m : ℕ → ℕ) (s : ℕ) → ℕ
atoi m s = atoi_loop 30 m s 0 0

-- A string without an end in 1025 places gives -1, with that many bytes written.
pub strcpy_loop : (left : ℕ) → (s t i : ℕ) → (ℕ → ℕ) → ℕ × (ℕ → ℕ)
strcpy_loop zero s t i m = (2 ^ 32 - 1, m)
strcpy_loop (suc n) s t i m =
    let rest = strcpy_loop n s t (suc i) (update m (t + i) (m (s + i))) in
    if m (s + i) == 0 then (0, update m (t + i) 0) else rest

pub strcpy : (s t : ℕ) → (ℕ → ℕ) → ℕ × (ℕ → ℕ)
strcpy s t m = strcpy_loop 1025 s t 0 m

-- `argc < 2` for two `int`s: also a negative one.
abbrev few_arguments : (argc : ℕ) → Bool
few_arguments argc = ltb argc 2 || leb (2 ^ 31) argc

module _ {ℓ} {S : Type ℓ} (host : Host S) (texts : Texts) where
  -- `argv` gives the pointers.
  pub kill_main : (argc : ℕ) (argv : ℕ → ℕ) → S → Option (ℕ × S)
  kill_main argc argv s =
      let pid = atoi (host.memory s) (argv 1) in
      if few_arguments argc
      then (print host texts.need_argument [] s >>= λ s'. some (1, s'))
      else (kill host pid 9 s >>= λ r.
          if r.0 == 0
          then some (0, r.1)
          else (print host texts.no_process (pid ∷ []) r.1 >>= λ s'. some (0, s')))

  pub sleep_main : (argc : ℕ) (argv : ℕ → ℕ) → S → Option (ℕ × S)
  sleep_main argc argv s =
      if few_arguments argc
      then (print host texts.need_argument [] s >>= λ s'. some (1, s'))
      else (sleep host (atoi (host.memory s) (argv 1)) s >>= λ r. some (0, r.1))

  -- `while(1)` of `cat`, until `read` gives 0 or, in 32 bits, a negative number. `f` bounds the rounds.
  pub cat_loop : (f : ℕ) → (fd : ℕ) → S → Option S
  cat_loop zero fd s = none
  cat_loop (suc f) fd s = read host fd texts.buffer 1024 s >>= λ r.
      let i = r.0 % 2 ^ 32 in
      elim ((i == 0) || leb (2 ^ 31) i) [
        | true ↦ some r.1
        | false ↦ print host texts.string_format (texts.buffer ∷ []) r.1 >>= cat_loop f fd
      ]

  -- `put` gives the world with another memory: `strcpy` writes the array.
  pub cat_main : (put : (ℕ → ℕ) → S → S) (f argc : ℕ) (argv : ℕ → ℕ) → S → Option (ℕ × S)
  cat_main put f argc argv s =
      let named = put (strcpy (argv 1) texts.buffer (host.memory s)).1 s in
      let show = λ (fd : ℕ) (s' : S).
        cat_loop f fd s' >>= λ done. close host fd done >>= λ r. some (0, r.1) in
      if few_arguments argc
      then show 0 s
      else (open_ host texts.buffer 0 named >>= λ r.
          if leb (2 ^ 31) r.0
          then (print host texts.failed_to_open (argv 1 ∷ []) r.1 >>= λ s'. some (2 ^ 32 - 1, s'))
          else show r.0 r.1)

  -- The entries of `buffer`, 60 bytes each, from the entry `i` on.
  pub ps_loop : (left : ℕ) → (entry : S → ℕ → List ℕ) (i : ℕ) → S → Option S
  ps_loop zero entry i s = some s
  ps_loop (suc n) entry i s = print host texts.ps_line (entry s i) s >>= ps_loop n entry (suc i)

  -- `entry` reads the `pid`, the `ppid` and the address of `pname`. `main` returns no value.
  pub ps_main : (entry : S → ℕ → List ℕ) → S → Option S
  ps_main entry s = get_ps host texts.buffer 50 s >>= λ r.
      print host texts.ps_head [] r.1 >>= ps_loop (if ltb r.0 (2 ^ 31) then r.0 else 0) entry 0

  -- `for (j = 0; j < argc; j++)` of `echo`.
  pub echo_arguments : (left : ℕ) → (argv : ℕ → ℕ) (j : ℕ) → S → Option S
  echo_arguments zero argv j s = some s
  echo_arguments (suc n) argv j s =
      print host texts.argv_line (j ∷ argv j ∷ []) s >>= echo_arguments n argv (suc j)

  -- `for (j = 0; envp[j]; j++)`; `f` bounds the rounds.
  pub echo_variables : (f : ℕ) → (envp : ℕ → ℕ) (j : ℕ) → S → Option S
  echo_variables zero envp j s = none
  echo_variables (suc f) envp j s = elim (envp j == 0) [
    | true ↦ some s
    | false ↦ print host texts.envp_line (j ∷ envp j ∷ []) s >>= echo_variables f envp (suc j)
  ]

  pub echo_main : (f argc : ℕ) (argv envp : ℕ → ℕ) → S → Option S
  echo_main f argc argv envp s =
      print host texts.argc_line (argc ∷ []) s
      >>= echo_arguments (if ltb argc (2 ^ 31) then argc else 0) argv 0
      >>= echo_variables f envp 0
      >>= exit host 0

  -- `while (ep)` of `ls`: the name stands 18 bytes into an entry. `f` bounds the entries.
  pub ls_loop : (f : ℕ) → Dir → S → Option (Dir × S)
  ls_loop zero dp s = none
  ls_loop (suc f) dp s =
      let ep = readdir (host.memory s) dp in
      elim (ep.0 == 0) [
        | true ↦ some (ep.1, s)
        | false ↦ print host texts.name_line ((ep.0 + 18) ∷ []) s >>= ls_loop f ep.1
      ]

  -- `opened` and `closed` are the library's `opendir` of "./" and `closedir` in this world.
  pub ls_main :
      (opened : S → Option (Option Dir × S)) (closed : Dir → S → Option S) (f : ℕ) (argv : ℕ → ℕ)
      → S
      → Option (ℕ × S)
  ls_main opened closed f argv s = opened s >>= λ r. elim r.0 [
    | some dp ↦ ls_loop f dp r.1 >>= λ q. closed q.0 q.1 >>= λ s'. some (0, s')
    | none ↦ print host texts.no_listing (argv 0 ∷ []) r.1 >>= λ s'. some (0, s')
  ]

  -- `_start` of crt/crt1.c, with the words of the stack from `stack_top` on.
  pub start_program :
      (main : (argc : ℕ) (argv envp : ℕ) → S → Option (ℕ × S)) (words : ℕ → ℕ) (stack_top : ℕ)
      → S
      → Option S
  start_program main words stack_top s =
      let argc = words (stack_top + 16) % 2 ^ 32 in
      let envp =
        (stack_top + 32 + 8 * (if ltb argc (2 ^ 31) then argc else argc + 2 ^ 64 - 2 ^ 32))
        % 2 ^ 64 in
      main argc (stack_top + 24) envp s >>= λ r. exit host r.0 r.1
