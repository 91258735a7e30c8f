-- ===== src/Environment.antt =====
-- bin/sbush/envutil.c: the shell's variables, a chain of `var_list` nodes behind an empty first one. Bytes and nodes lie in stores of their own; both are allocated by `malloc`,
-- and `free` is empty in libc/stdlib.c. `none`: the fuel is used up, or a null pointer or a place before
-- an array is read.
pub mod Chain
pub mod Find
pub mod Arguments
pub mod Split
mod Tests
use my_sbuos.Base.{
  ℕ, zero, suc, ◌+◌, ◌-◌, ◌*◌, ◌/◌, ◌%◌, ◌^◌, ◌≤◌, ◌<◌, ◌≡◌, refl, sym, ap, ap₂, ◌∙◌, ◌≢◌, ◌⊎◌, inl,
  inr, Bool, true, false, not, ◌&&◌, ◌||◌, Option, none, some, List, [], ◌∷◌, ◌++◌, map, append-nil,
  append_assoc, arith, ltb, leb, ◌==◌, if◌then◌else◌, Bool-cases, Option-cases, ◌>>=◌, ltb→lt,
  lt→ltb, leb→le, eq→==, ne→==, ==_iff, length, get_or, length-append, All, All-append, NotIn,
  Distinct, NotIn-append, Distinct-snoc, mem, NotIn-of_mem, mem_of_NotIn, mem-append, update,
  update_self, update_other, Holds, Holds-agree, Holds-append, Holds-append_left,
  Holds-append_right, subst,
}
use my_sbuos.Process.{Kernel}
use my_sbuos.Heap.{malloc}
use my_sbuos.Shell.{
  none_found, shift, strlen, strcpy, strcpy_fr_to, strsearch, strcomp, strcount, strremove,
}

pub record VarList : Type 0 where
  pub varname : ℕ
  pub varval : ℕ
  pub next : ℕ

pub record Environment : Type 0 where
  pub memory : ℕ → ℕ
  pub nodes : ℕ → VarList
  pub head : ℕ
  pub tail : ℕ
  pub envp_copy : ℕ → ℕ
  pub kernel : Kernel

-- The string literals of the file, by address.
pub record Literals : Type 0 where
  pub ps1 : ℕ
  pub ps1_value : ℕ
  pub path : ℕ
  pub path_value : ℕ
  pub user : ℕ
  pub user_value : ℕ
  pub space : ℕ

abbrev pub allocate : (size : ℕ) → Environment → ℕ × Environment
allocate size s = let p = malloc size s.kernel in (p.0, record s { kernel = p.1 })

abbrev pub set_byte : (a c : ℕ) → Environment → Environment
set_byte a c s = record s { memory = update s.memory a c }

abbrev pub set_node : (a : ℕ) → VarList → Environment → Environment
set_node a v s = record s { nodes = update s.nodes a v }

abbrev pub copy_string : (from to : ℕ) → Environment → Environment
copy_string from to s = record s { memory = (strcpy from to s.memory).1 }

pub var_init : Environment → Environment
var_init s =
    let x = allocate 15 s in
    let first = allocate 24 x.1 in
    let marked = set_byte x.0 99 first.1 in
    set_node first.0 (record { varname = 0; varval = 0; next = 0 })
      (record marked { head = first.0; tail = first.0 })

pub var_add : (varname varval : ℕ) → Environment → Environment
var_add varname varval s =
    let var = allocate 24 s in
    let made = set_node var.0 (record { varname = varname; varval = varval; next = 0 }) var.1 in
    let linked = set_node s.tail (record (made.nodes s.tail) { next = var.0 }) made in
    record linked { tail = var.0 }

pub var_count_loop : (f : ℕ) → Environment → (current count : ℕ) → Option ℕ
var_count_loop zero s current count = none
var_count_loop (suc f) s current count =
    let rest = var_count_loop f s (s.nodes current).next (count + 1) in
    if current == 0 then some count else rest

pub var_count : (f : ℕ) → Environment → Option ℕ
var_count f s = var_count_loop f s (s.nodes s.head).next 0

-- The node, or 0.
pub var_find_loop : (f : ℕ) (varname : ℕ) → Environment → (current : ℕ) → Option ℕ
var_find_loop zero varname s current = none
var_find_loop (suc f) varname s current =
    let rest = var_find_loop f varname s (s.nodes current).next in
    if current == 0
    then some 0
    else if strcomp s.memory (s.nodes current).varname varname == 0
    then some current
    else rest

pub var_find : (f : ℕ) (varname : ℕ) → Environment → Option ℕ
var_find f varname s = var_find_loop f varname s (s.nodes s.head).next

-- `(char*)malloc(strlen(str)+1)` with the string copied there.
pub copy_fresh : (str : ℕ) → Environment → ℕ × Environment
copy_fresh str s =
    let p = allocate ((strlen s.memory str + 1) % 2 ^ 32) s in (p.0, copy_string str p.0 p.1)

-- The length is cast from an `int` of 32 bits, which `malloc` takes back.
pub var_set : (f : ℕ) (varname varval : ℕ) → Environment → Option Environment
var_set f varname varval s = var_find f varname s >>= λ target.
    if target == 0
    then (let my_varname = allocate ((strlen s.memory varname + 1) % 2 ^ 32) s in
        let named = copy_string varname my_varname.0 my_varname.1 in
        let my_varval = allocate ((strlen s.memory varval + 1) % 2 ^ 32) named in
        some (var_add my_varname.0 my_varval.0 (copy_string varval my_varval.0 my_varval.1)))
    else (let p = allocate ((strlen s.memory varval + 1) % 2 ^ 32) s in
        some
          (copy_string varval p.0 (set_node target (record (s.nodes target) { varval = p.0 }) p.1)))

-- bin/sbush/strutil.c: both halves of the line in fresh memory.
pub str_split_line : (line pos : ℕ) → Environment → ℕ × ℕ × Environment
str_split_line line pos s =
    let first_half = allocate ((pos + 1) % 2 ^ 32) s in
    let cut = record first_half.1 {
      memory = (strcpy_fr_to line first_half.0 0 pos first_half.1.memory).1;
    } in
    let l = strlen cut.memory line in
    let second_half = allocate ((l + (2 ^ 32 - pos)) % 2 ^ 32) cut in
    (
      first_half.0,
      second_half.0,
      record second_half.1 {
        memory = (strcpy_fr_to line second_half.0 ((pos + 1) % 2 ^ 32) l second_half.1.memory).1;
      },
    )

-- The entries of `envp` before its null pointer.
pub parse_entries : (envp : List ℕ) → Environment → Environment
parse_entries [] s = s
parse_entries (e ∷ es) s =
    let assign_index = strsearch s.memory e 61 in
    let halves = str_split_line e assign_index s in
    parse_entries es (if assign_index == none_found then s else var_add halves.0 halves.1 halves.2)

pub add_default : (f : ℕ) (name value name_size value_size : ℕ) → Environment → Option Environment
add_default f name value name_size value_size s = var_find f name s >>= λ found.
    let varname = allocate name_size s in
    let varval = allocate value_size varname.1 in
    some (
      if found == 0
      then var_add varname.0 varval.0
          (copy_string value varval.0 (copy_string name varname.0 varval.1))
      else s)

pub parse_envp : (f : ℕ) → Literals → (envp : List ℕ) → Environment → Option Environment
parse_envp f t envp s =
    add_default f t.ps1 t.ps1_value 4 20 (parse_entries envp (var_init s)) >>= λ s1.
    add_default f t.path t.path_value 6 20 s1 >>= λ s2. add_default f t.user t.user_value 6 20 s2

-- `var_find(name)->varval`
pub value_of : (f : ℕ) (name : ℕ) → Environment → Option ℕ
value_of f name s =
    var_find f name s >>= λ var. if var == 0 then none else some (s.nodes var).varval

pub getusrnm : (f : ℕ) → Literals → (buffer size : ℕ) → Environment → Option (ℕ × Environment)
getusrnm f t buffer size s = value_of f t.user s >>= λ v. some (none_found, copy_string v buffer s)

pub get_path : (f : ℕ) → Literals → Environment → Option ℕ
get_path f t s = value_of f t.path s

-- `for (i = 0; i < 15; ++i)`
pub clear_copies : (n i : ℕ) → (ℕ → ℕ) → ℕ → ℕ
clear_copies zero i envp_copy = envp_copy
clear_copies (suc n) i envp_copy = clear_copies n (suc i) (update envp_copy i 0)

pub copy_variable : (current i : ℕ) → Environment → Environment
copy_variable current i s =
    let v = s.nodes current in
    let p = allocate 100 s in
    let placed = record p.1 { envp_copy = update s.envp_copy i p.0 } in
    let named = copy_string v.varname p.0 placed in
    let l = strlen named.memory v.varname in
    copy_string v.varval (shift p.0 l + 1) (set_byte (shift p.0 l) 61 named)

pub copy_variables : (f : ℕ) (current i : ℕ) → Environment → Option Environment
copy_variables zero current i s = none
copy_variables (suc f) current i s =
    let rest = copy_variables f (s.nodes current).next (suc i) (copy_variable current i s) in
    if current == 0 then some s else rest

-- The array is `envp_copy` of the result.
pub get_envp : (f : ℕ) → Environment → Option Environment
get_envp f s =
    copy_variables f (s.nodes s.head).next 0
      (record s { envp_copy = clear_copies 15 0 s.envp_copy })

pub var_get_val : (f : ℕ) (varname : ℕ) → Environment → Option (ℕ × Environment)
var_get_val f varname s = var_find f varname s >>= λ var.
    if var == 0
    then (let p = allocate 1 s in some (p.0, set_byte p.0 0 p.1))
    else some (copy_fresh (s.nodes var).varval s)
