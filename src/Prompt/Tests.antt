-- ===== src/Prompt/Tests.antt =====
-- The prompt `\u>` of the user `a`.
use my_sbuos.Base.{
  ℕ, suc, ◌≤◌, ◌<◌, ◌≡◌, refl, ◌⊎◌, inl, some, List, [], ◌∷◌, arith, ◌==◌, if◌then◌else◌, get_or,
  Holds,
}
use my_sbuos.Process.Sample.{sample_block, sample_kernel}
use my_sbuos.Process.{Kernel, Pcb}
use my_sbuos.Environment.{Environment, Literals, value_of}
use my_sbuos.Environment.Find.{Text, Variables, var_find-first_named, value_of-var_find}
use my_sbuos.Prompt.{Buffers, get_formatted_prompt}
use my_sbuos.Prompt.Expand.{Inserts, Ready}
use my_sbuos.Prompt.Format.{get_formatted_prompt-expand}

abbrev block : Pcb
block = sample_block 4096

abbrev kernel : Kernel
kernel = sample_kernel block

-- "PS1", "\u>", "a", "/" and "0"
abbrev bytes_at : ℕ → ℕ
bytes_at a = get_or (80 ∷ 83 ∷ 49 ∷ 0 ∷ 92 ∷ 117 ∷ 62 ∷ 0 ∷ 97 ∷ 0 ∷ 47 ∷ 0 ∷ 48 ∷ 0 ∷ []) a 0

abbrev shell : Environment
shell = record {
  memory = bytes_at;
  nodes = λ p.
      if p == 1000
      then record { varname = 0; varval = 0; next = 2000 }
      else record { varname = 0; varval = 4; next = 0 };
  head = 1000;
  tail = 2000;
  envp_copy = λ i. 0;
  kernel = kernel;
}

abbrev literals : Literals
literals = record {
  ps1 = 0;
  ps1_value = 0;
  path = 0;
  path_value = 0;
  user = 0;
  user_value = 0;
  space = 0;
}

abbrev buffers : Buffers
buffers = record { prompt = 100; cwd = 10; status_str = 12; user_name_str = 8 }

abbrev inserts : Inserts
inserts = record { user = 97 ∷ []; directory = 47 ∷ []; status = 48 ∷ [] }

abbrev ps1_format : List ℕ
ps1_format = 92 ∷ 117 ∷ 62 ∷ []

one-Text :
    (p c : ℕ) → bytes_at p ≡ c → bytes_at (suc p) ≡ 0 → 0 < c → c < 256 → Text bytes_at p (c ∷ [])
one-Text p c here end_ pos small = (
  record { bytes = (((λ e. omega (arith, e, pos)), small), tt); held = (here, (end_, tt)) },
  omega arith,
)

three-Text :
    (p a b c : ℕ)
    → (bytes_at p ≡ a)
      × (bytes_at (suc p) ≡ b)
      × (bytes_at (suc (suc p)) ≡ c)
      × (bytes_at (suc (suc (suc p))) ≡ 0)
    → (0 < a) × (a < 256) × (0 < b) × (b < 256) × (0 < c) × (c < 256)
    → Text bytes_at p (a ∷ b ∷ c ∷ [])
three-Text p a b c h k = (
  record {
    bytes = (
      ((λ e. omega (arith, e, k.0)), k.1),
      (((λ e. omega (arith, e, k.2)), k.3), (((λ e. omega (arith, e, k.4)), k.5), tt)),
    );
    held = (h.0, (h.1, (h.2, (h.3, tt))));
  },
  omega arith,
)

name-Text : Text bytes_at 0 (80 ∷ 83 ∷ 49 ∷ [])
name-Text =
    three-Text 0 80 83 49 (refl, refl, refl, refl)
      (omega arith, omega arith, omega arith, omega arith, omega arith, omega arith)

shell-Variables : Variables shell (λ a. 80 ∷ 83 ∷ 49 ∷ []) (2000 ∷ [])
shell-Variables = record {
  chain = (refl, (λ e. omega (arith, e)), refl);
  end_ = refl;
  apart = (((λ e. omega (arith, e)), tt), (tt, tt));
  below = (omega arith, (omega arith, tt));
  names = (name-Text, tt);
}

ps1-value_of : value_of 10 0 shell ≡ some 4
ps1-value_of =
    value_of-var_find 10 0 2000 shell
      (var_find-first_named 10 0 (80 ∷ 83 ∷ 49 ∷ []) shell (λ a. 80 ∷ 83 ∷ 49 ∷ []) (2000 ∷ [])
        shell-Variables name-Text (omega arith))
      (λ e. omega (arith, e))

buffers-Ready : Ready buffers 50 4 ps1_format inserts bytes_at
buffers-Ready = record {
  text = (
    three-Text 4 92 117 62 (refl, refl, refl, refl)
        (omega arith, omega arith, omega arith, omega arith, omega arith, omega arith),
    inl (omega arith),
  );
  user = (one-Text 8 97 refl refl (omega arith) (omega arith), inl (omega arith));
  directory = (one-Text 10 47 refl refl (omega arith) (omega arith), inl (omega arith));
  status = (one-Text 12 48 refl refl (omega arith) (omega arith), inl (omega arith));
}

get_formatted_prompt-expand_example :
    (m' : ℕ → ℕ) × (get_formatted_prompt 10 literals buffers shell
      ≡ some (record shell { memory = m' }))
    × Holds m' 100 (97 ∷ 62 ∷ 0 ∷ [])
    × ((j : ℕ) → (j < 100) ⊎ (150 ≤ j) → m' j ≡ bytes_at j)
get_formatted_prompt-expand_example =
    get_formatted_prompt-expand 10 literals buffers 50 4 ps1_format inserts shell ps1-value_of
      buffers-Ready (omega arith) (omega arith)
