-- ===== src/Programs/Sent.antt =====
-- `kill` with a number typed as text: the program, the C library, the dispatch and the handler together.
use my_sbuos.Base.{
  ℕ, ◌%◌, ◌^◌, ◌≤◌, ◌<◌, ◌≡◌, refl, ap, ◌∙◌, false, ◌||◌, Option, none, some, [], ◌∷◌, arith, ltb,
  leb, ◌==◌, if◌then◌else◌, ◌>>=◌, mem,
}
use my_sbuos.Console.Numbers.{dec_digit}
use my_sbuos.Console.Numbers.Digits.{Printed}
use my_sbuos.Process.{Kernel}
use my_sbuos.Syscall.{do_kill}
use my_sbuos.Syscall.Dispatch.{call_kill, do_system_call, do_system_call-kill}
use my_sbuos.Library.{Host, print, syscall_2, kill}
use my_sbuos.Programs.{Texts, kill_main}
use my_sbuos.Programs.Number.{atoi-Printed}

-- A world that holds a kernel, and whose `int80` runs `do_kill` when the dispatch selects it.
pub record Serves {ℓ} {S : Type ℓ} (host : Host S) : Type ℓ where
  pub kernel_of : S → Kernel
  pub set_kernel : Kernel → S → S
  pub kills :
      (rax rdi rsi rdx pid sig : ℕ) (s : S)
      → do_system_call rax rdi rsi rdx ≡ some (call_kill pid sig)
      → host.int80 rax rdi rsi rdx s
        ≡ (do_kill pid sig (kernel_of s) >>= λ r. some (r.0, set_kernel r.1 s))

-- What `kill` does with the answer of the kernel.
pub report {ℓ} : {S : Type ℓ} (host : Host S) (texts : Texts) (n answer : ℕ) → S → Option (ℕ × S)
report host texts n answer s =
    if answer % 2 ^ 32 == 0
    then some (0, s)
    else (print host texts.no_process (n ∷ []) s >>= λ s'. some (0, s'))

bind-some {ℓ} :
    {A : Type 0} {B C : Type ℓ} (o : Option A) (g : A → B) (k : B → Option C)
    → ((o >>= λ a. some (g a)) >>= k) ≡ (o >>= λ a. k (g a))
bind-some none g k = refl
bind-some (some a) g k = refl

-- With the decimal text of `n`, below 2 ^ 32, as its argument, `kill` has the kernel run `do_kill n 9`
-- and reports on the answer: on 0 it is done, otherwise it prints its message about `n` first.
pub kill_main-report {ℓ} :
    {S : Type ℓ} (host : Host S) (w : Serves host) (texts : Texts) (argc n : ℕ) (argv mem : ℕ → ℕ)
    (s : S)
    → 2 ≤ argc
    → argc < 2 ^ 31
    → n < 2 ^ 32
    → Printed 10 dec_digit n (argv 1) mem (host.memory s)
    → kill_main host texts argc argv s
      ≡ (do_kill n 9 (w.kernel_of s) >>= λ r. report host texts n r.0 (w.set_kernel r.1 s))
unfolding report kill_main kill syscall_2
kill_main-report {S} host w texts argc n argv mem s many positive below text =
    let number = atoi-Printed mem (host.memory s) (argv 1) n below text in
    let few : (ltb argc 2 || leb (2 ^ 31) argc) ≡ false = ground arith in
    let call : do_system_call 62 n 9 host.rdx ≡ some (call_kill n 9) =
      do_system_call-kill n 9 host.rdx in
    let o = do_kill n 9 (w.kernel_of s) in
    let done = λ (r : ℕ × S).
      if r.0 == 0
      then some (0, r.1)
      else (print host texts.no_process (n ∷ []) r.1 >>= λ s'. some (0, s')) in
    rw (few, number, w.kills 62 n 9 host.rdx n 9 s call)
      (ap (λ x. x >>= done)
          (bind-some o (λ r. (r.0, w.set_kernel r.1 s)) (λ r. some (r.0 % 2 ^ 32, r.1)))
        ∙ bind-some o (λ r. (r.0 % 2 ^ 32, w.set_kernel r.1 s)) done)
