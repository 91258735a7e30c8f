-- ===== src/Prompt/Expand.antt =====
-- The prompt as the format with its three kinds of inserts.
use my_sbuos.Base.{
  ℕ, suc, ◌+◌, ◌≤◌, ◌<◌, ◌≡◌, refl, ap, ◌⊎◌, inl, inr, true, false, Option, none, some, List, [],
  ◌∷◌, ◌++◌, arith, ltb, ◌==◌, if◌then◌else◌, Bool-cases, length, length-append, update,
  Holds-agree,
}
use my_sbuos.Shell.{rounds, strlen}
use my_sbuos.Environment.Find.{Text}
use my_sbuos.Prompt.{Buffers, copy_format, format_with, insert_at, prompt_loop}
use my_sbuos.Prompt.Fill.{Clear}

-- The user's name, the directory and the status.
pub record Inserts : Type 0 where
  pub user : List ℕ
  pub directory : List ℕ
  pub status : List ℕ

abbrev pub insert_text : Inserts → (c : ℕ) → Option (List ℕ)
insert_text x c =
    if c == 117
    then some x.user
    else if c == 100
    then some x.directory
    else if c == 83
    then some x.status
    else none

-- The format with `\\u`, `\\d` and `\\S` replaced.
abbrev pub expand : Inserts → List ℕ → List ℕ
expand x [] = []
expand x (c ∷ []) = c ∷ []
expand x (c ∷ e ∷ cs) = elim (if c == 92 then insert_text x e else none) [
  | none ↦ c ∷ expand x (e ∷ cs)
  | some t ↦ t ++ expand x cs
]

-- The format stands at `p` and the inserts in their buffers, all of them clear of the `size` bytes of
-- the prompt.
pub record Ready (a : Buffers) (size p : ℕ) (xs : List ℕ) (x : Inserts) (m : ℕ → ℕ) : Type 0 where
  pub text : Text m p xs × Clear a.prompt size p xs
  pub user : Text m a.user_name_str x.user × Clear a.prompt size a.user_name_str x.user
  pub directory : Text m a.cwd x.directory × Clear a.prompt size a.cwd x.directory
  pub status : Text m a.status_str x.status × Clear a.prompt size a.status_str x.status

Text-agree :
    (w size : ℕ) (m m' : ℕ → ℕ) (p : ℕ) (xs : List ℕ)
    → ((j : ℕ) → (j < w) ⊎ (w + size ≤ j) → m' j ≡ m j)
    → Text m p xs × Clear w size p xs
    → Text m' p xs × Clear w size p xs
Text-agree w size m m' p xs same h =
    let len : length (xs ++ 0 ∷ []) ≡ length xs + 1 = length-append xs (0 ∷ []) in
    (
      (
        record {
          bytes = h.0.0.bytes;
          held =
              Holds-agree m m' p (xs ++ 0 ∷ [])
                (λ j low high. same j (ground (arith, len, low, high, h.1))) h.0.0.held;
        },
        h.0.1,
      ),
      h.1,
    )

pub Ready-agree :
    (a : Buffers) (size p : ℕ) (xs : List ℕ) (x : Inserts) (m m' : ℕ → ℕ)
    → ((j : ℕ) → (j < a.prompt) ⊎ (a.prompt + size ≤ j) → m' j ≡ m j)
    → Ready a size p xs x m
    → Ready a size p xs x m'
Ready-agree a size p xs x m m' same h = record {
  text = Text-agree a.prompt size m m' p xs same h.text;
  user = Text-agree a.prompt size m m' a.user_name_str x.user same h.user;
  directory = Text-agree a.prompt size m m' a.cwd x.directory same h.directory;
  status = Text-agree a.prompt size m m' a.status_str x.status same h.status;
}

-- the format's letter and the text that is inserted for it
abbrev pub Matches :
    (a : Buffers) (size : ℕ) (x : Inserts) (m : ℕ → ℕ) (o : Option ℕ) (q : Option (List ℕ)) → Type 0
Matches a size x m o q =
    ((o ≡ none) × (q ≡ none))
    ⊎ ((w : ℕ) × (t : List ℕ) × (o ≡ some w)
        × (q ≡ some t)
        × (Text m w t × Clear a.prompt size w t)
        × (length t ≤ length x.user + length x.directory + length x.status))

pub format_with-Matches :
    (a : Buffers) (size p : ℕ) (xs : List ℕ) (x : Inserts) (m : ℕ → ℕ) (c e : ℕ)
    → Ready a size p xs x m
    → Matches a size x m
        (if c == 92 then format_with a e else none)
        (if c == 92 then insert_text x e else none)
format_with-Matches a size p xs x m c e h = elim (Bool-cases (c == 92)) [
  | inr miss ↦ rw miss (inl (refl, refl))
  | inl hit ↦ elim (Bool-cases (e == 117)) [
    | inl u ↦ rw (hit, u) (inr (a.user_name_str, x.user, refl, refl, h.user, omega arith))
    | inr nu ↦ elim (Bool-cases (e == 100)) [
      | inl d ↦ rw (hit, nu, d) (inr (a.cwd, x.directory, refl, refl, h.directory, omega arith))
      | inr nd ↦ elim (Bool-cases (e == 83)) [
        | inl s ↦
            rw (hit, nu, nd, s) (inr (a.status_str, x.status, refl, refl, h.status, omega arith))
        | inr ns ↦ rw (hit, nu, nd, ns) (inl (refl, refl))
      ]
    ]
  ]
]

pub prompt_loop_plain :
    (f : ℕ) (a : Buffers) (p i b n c : ℕ) (m : ℕ → ℕ)
    → rounds (strlen m p) ≡ n
    → i < n
    → m (p + i) ≡ c
    → insert_at a m (p + i) ≡ none
    → prompt_loop (suc f) a p i b m ≡ prompt_loop f a p (suc i) (suc b) (update m (a.prompt + b) c)
unfolding prompt_loop
prompt_loop_plain f a p i b n c m l lt here miss =
    let more : ltb i (rounds (strlen m p)) ≡ true = rw l (ground (arith, lt)) in
    rw (prompt_loop, more)
      (rw miss (ap (λ v. prompt_loop f a p (suc i) (suc b) (update m (a.prompt + b) v)) here))

pub prompt_loop_insert :
    (f : ℕ) (a : Buffers) (p i b n w : ℕ) (m : ℕ → ℕ) (r : ℕ × (ℕ → ℕ))
    → rounds (strlen m p) ≡ n
    → i < n
    → insert_at a m (p + i) ≡ some w
    → copy_format f a w 0 b m ≡ some r
    → prompt_loop (suc f) a p i b m ≡ prompt_loop f a p (suc (suc i)) r.0 r.1
unfolding prompt_loop
prompt_loop_insert f a p i b n w m r l lt hit done =
    let more : ltb i (rounds (strlen m p)) ≡ true = rw l (ground (arith, lt)) in
    rw (prompt_loop, more) (rw hit (rw done refl))

pub prompt_loop_end :
    (f : ℕ) (a : Buffers) (p i b : ℕ) (m : ℕ → ℕ)
    → rounds (strlen m p) ≡ i
    → prompt_loop (suc f) a p i b m ≡ some (b, m)
unfolding prompt_loop
prompt_loop_end f a p i b m l =
    let over : ltb i (rounds (strlen m p)) ≡ false = rw l (ground arith) in
    rw (prompt_loop, over) refl
