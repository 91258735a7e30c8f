-- ===== src/Environment/Arguments.antt =====
-- `process_argv` of bin/sbush/envutil.c: quotes and variables in the arguments of a command.
use my_sbuos.Base.{
  ℕ, zero, suc, ◌+◌, ◌-◌, ◌%◌, ◌^◌, true, false, Option, none, some, ltb, ◌==◌, if◌then◌else◌,
  ◌>>=◌, update,
}
use my_sbuos.Shell.{none_found, shift, strlen, strcpy, strcount, strremove}
use my_sbuos.Environment.{Environment, Literals, allocate, set_byte, var_get_val}

-- The arguments of a command, an array of pointers that ends with a null pointer.
-- `for (j = i1; j <= i2; ++j)` of the quotes, with the rounds that are left: the sum of the lengths.
pub strip_quotes :
    (n f j : ℕ) (argv : ℕ → ℕ) (merge_len : ℕ) → Environment → Option (ℕ × Environment)
strip_quotes zero f j argv merge_len s = some (merge_len, s)
strip_quotes (suc n) f j argv merge_len s = strremove f (argv j) 34 s.memory >>= λ r.
    strip_quotes n f (suc j) argv ((merge_len + strlen r.1 (argv j)) % 2 ^ 32)
      (record s { memory = r.1 })

-- `l += strcpy(str, buffer + l)`
abbrev pub append_string : (str buffer : ℕ) → ℕ × Environment → ℕ × Environment
append_string str buffer p =
    let r = strcpy str (shift buffer p.0) p.1.memory in
    ((p.0 + r.0) % 2 ^ 32, record p.1 { memory = r.1 })

pub join_arguments :
    (n i1 j : ℕ) (argv : ℕ → ℕ) (space buffer : ℕ) → ℕ × Environment → ℕ × Environment
join_arguments zero i1 j argv space buffer p = p
join_arguments (suc n) i1 j argv space buffer p =
    let spaced = if ltb i1 j then append_string space buffer p else p in
    join_arguments n i1 (suc j) argv space buffer (append_string (argv j) buffer spaced)

-- `argv[j][0] = 0`
pub empty_arguments : (n j : ℕ) (argv : ℕ → ℕ) → Environment → Environment
empty_arguments zero j argv s = s
empty_arguments (suc n) j argv s = empty_arguments n (suc j) argv (set_byte (argv j) 0 s)

pub merge : (f i1 i2 : ℕ) (argv : ℕ → ℕ) (space : ℕ) → Environment → Option ((ℕ → ℕ) × Environment)
merge f i1 i2 argv space s = strip_quotes (suc i2 - i1) f i1 argv 0 s >>= λ r.
    let buffer = allocate ((r.0 + 1) % 2 ^ 32) r.1 in
    let joined = join_arguments (suc i2 - i1) i1 i1 argv space buffer.0 (0, buffer.1) in
    let argv' = update argv i1 buffer.0 in
    some (argv', empty_arguments (i2 - i1) (suc i1) argv' joined.1)

-- The first loop of `process_argv`; `i1` is -1 outside of quotes.
pub merge_quoted :
    (f i i1 : ℕ) (argv : ℕ → ℕ) (space : ℕ) → Environment → Option ((ℕ → ℕ) × Environment)
merge_quoted zero i i1 argv space s = none
merge_quoted (suc f) i i1 argv space s = elim (argv i == 0) [
  | true ↦ some (argv, s)
  | false ↦ strcount f s.memory (argv i) 34 >>= λ count. elim (count % 2 == 1) [
    | false ↦ strremove f (argv i) 34 s.memory >>= λ r.
        merge_quoted f (suc i) i1 argv space (record s { memory = r.1 })
    | true ↦ elim (i1 == none_found) [
      | true ↦ merge_quoted f (suc i) i argv space s
      | false ↦ merge f i1 i argv space s >>= λ r. merge_quoted f (suc i) none_found r.0 space r.1
    ]
  ]
]

-- `for (j = i; argv[j]; j++) argv[j] = argv[j+1];`
pub move_down : (f j : ℕ) (argv : ℕ → ℕ) → Option (ℕ → ℕ)
move_down zero j argv = none
move_down (suc f) j argv =
    let rest = move_down f (suc j) (update argv j (argv (suc j))) in
    if argv j == 0 then some argv else rest

-- `if (argv[i][0] == '$')`
pub replace_variable : (f i : ℕ) (argv : ℕ → ℕ) → Environment → Option ((ℕ → ℕ) × Environment)
replace_variable f i argv s =
    if s.memory (argv i) == 36
    then (var_get_val f (argv i + 1) s >>= λ r. some (update argv i r.0, r.1))
    else some (argv, s)

-- The second loop. After the removal of an empty argument the one before it is looked at again; before
-- the first one there is none.
pub replace_variables : (f i : ℕ) (argv : ℕ → ℕ) → Environment → Option ((ℕ → ℕ) × Environment)
replace_variables zero i argv s = none
replace_variables (suc f) i argv s = elim (argv i == 0) [
  | true ↦ some (argv, s)
  | false ↦ elim (s.memory (argv i) == 0) [
    | false ↦ replace_variable f i argv s >>= λ r. replace_variables f (suc i) r.0 r.1
    | true ↦ elim i [
      | zero ↦ none
      | suc i' ↦ move_down f (suc i') argv >>= λ moved.
          replace_variable f i' moved s >>= λ r. replace_variables f (suc i') r.0 r.1
    ]
  ]
]

pub process_argv :
    (f : ℕ) → Literals → (argv : ℕ → ℕ) → Environment → Option (ℕ × (ℕ → ℕ) × Environment)
process_argv f t argv s = merge_quoted f 0 none_found argv t.space s >>= λ r.
    replace_variables f 0 r.0 r.1 >>= λ q. some (0, q.0, q.1)
