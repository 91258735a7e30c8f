-- ===== src/Environment/Find.antt =====
-- `var_find`, and what `var_add` makes of its answers.
use my_sbuos.Base.{
  ℕ, zero, suc, ◌+◌, ◌≤◌, ◌<◌, ◌≡◌, refl, sym, ap, ◌∙◌, ◌≢◌, Bool, true, false, Option, some, List,
  [], ◌∷◌, ◌++◌, arith, ltb, ◌==◌, if◌then◌else◌, ne→==, length, All, All-append, NotIn, Distinct,
  Distinct-snoc, update, update_self, update_other, subst,
}
use my_sbuos.Text.Strings.{IsString, same_text}
use my_sbuos.Syscall.{heap_top}
use my_sbuos.Process.{Kernel, Pcb}
use my_sbuos.Syscall.Memory.{with_break, break_of}
use my_sbuos.Heap.{malloc}
use my_sbuos.Heap.Blocks.{malloc-break_of}
use my_sbuos.Shell.{max_str_len}
use my_sbuos.Shell.Compare.{strcomp-same_text}
use my_sbuos.Environment.{VarList, Environment, var_find_loop, var_find, var_add, value_of}
use my_sbuos.Environment.Chain.{
  Linked, last, link, NotIn-last, Linked-link, link-varname, link-new, last-append,
}

-- The string at `p`, which the shell's functions read to its end.
abbrev pub Text : (m : ℕ → ℕ) (p : ℕ) → List ℕ → Type 0
Text m p xs = IsString m p xs × (length xs < max_str_len)

-- The first of the nodes whose name is `key`, or 0.
abbrev pub first_named : (name : ℕ → List ℕ) (key : List ℕ) → List ℕ → ℕ
first_named name key [] = 0
first_named name key (a ∷ ns) = if same_text (name a) key then a else first_named name key ns

var_find_loop-first_named :
    (f p : ℕ) (key : List ℕ) (s : Environment) (name : ℕ → List ℕ) (c : ℕ) (ns : List ℕ)
    → Text s.memory p key
    → Linked s.nodes c ns
    → All (λ a. Text s.memory (s.nodes a).varname (name a)) ns
    → length ns < f
    → var_find_loop f p s (s.nodes c).next ≡ some (first_named name key ns)
unfolding var_find_loop
var_find_loop-first_named zero p key s name c ns h k n fuel = absurd (omega arith)
var_find_loop-first_named (suc f) p key s name c [] h k n fuel = rw k refl
var_find_loop-first_named (suc f) p key s name c (a ∷ ns) h k n fuel =
    let more : (a == 0) ≡ false = ne→== a 0 k.1 in
    let same = strcomp-same_text s.memory (s.nodes a).varname p (name a) key n.0.0 h.0 n.0.1 h.1 in
    let rest = var_find_loop-first_named f p key s name a ns h k.2 n.1 (omega (arith, fuel)) in
    rw (k.0, more, same) (ite_some (same_text (name a) key) a _ _ rest)
  where
    ite_some :
        (b : Bool) (a : ℕ) (o : Option ℕ) (r : ℕ)
        → o ≡ some r
        → (if b then some a else o) ≡ some (if b then a else r)
    ite_some true a o r e = refl
    ite_some false a o r e = e

-- The chain from the empty first node on is `ns` with the names `name`, `tail` is its end, and the
-- nodes are different and below the break.
pub record Variables (s : Environment) (name : ℕ → List ℕ) (ns : List ℕ) : Type 0 where
  pub chain : Linked s.nodes s.head ns
  pub end_ : s.tail ≡ last s.head ns
  pub apart : Distinct (s.head ∷ ns)
  pub below : All (λ a. a < break_of s.kernel) (s.head ∷ ns)
  pub names : All (λ a. Text s.memory (s.nodes a).varname (name a)) ns

-- `var_find` returns the first node of the chain with the name, or the null pointer when there is none.
pub var_find-first_named :
    (f p : ℕ) (key : List ℕ) (s : Environment) (name : ℕ → List ℕ) (ns : List ℕ)
    → Variables s name ns
    → Text s.memory p key
    → length ns < f
    → var_find f p s ≡ some (first_named name key ns)
unfolding var_find
var_find-first_named f p key s name ns v h fuel =
    var_find_loop-first_named f p key s name s.head ns h v.chain v.names fuel

NotIn-below : (b : ℕ) (ns : List ℕ) → All (λ a. a < b) ns → NotIn b ns
NotIn-below b [] h = tt
NotIn-below b (a ∷ ns) h = (λ e. omega (arith, h.0, e), NotIn-below b ns h.1)

All-rise : (b c : ℕ) (ns : List ℕ) → b ≤ c → All (λ a. a < b) ns → All (λ a. a < c) ns
All-rise b c [] le h = tt
All-rise b c (a ∷ ns) le h = (omega (arith, le, h.0), All-rise b c ns le h.1)

old_names :
    (m : ℕ → ℕ) (nodes : ℕ → VarList) (tail new : ℕ) (v : VarList) (name : ℕ → List ℕ) (xs : List ℕ)
    (ns : List ℕ)
    → NotIn new ns
    → All (λ a. Text m (nodes a).varname (name a)) ns
    → All (λ a. Text m (link nodes tail new v a).varname (update name new xs a)) ns
old_names m nodes tail new v name xs [] fresh h = tt
old_names m nodes tail new v name xs (a ∷ ns) fresh h =
    let old : a ≢ new = λ e. fresh.0 (sym e) in
    let kept = (link-varname nodes tail new v a old).0 in
    (
      rw (kept, update_other name new a xs old) h.0,
      old_names m nodes tail new v name xs ns fresh.1 h.1,
    )

-- With room below the top of the heap `var_add` puts a node with the name and the value behind the
-- others, at the old break, and keeps the chain well-formed.
pub var_add-Variables :
    (s : Environment) (name : ℕ → List ℕ) (ns : List ℕ) (varname varval : ℕ) (xs : List ℕ)
    → Variables s name ns
    → 0 < break_of s.kernel
    → break_of s.kernel + 24 < heap_top
    → Text s.memory varname xs
    → let new = break_of s.kernel in
      let s' = var_add varname varval s in
      Variables s' (update name new xs) (ns ++ new ∷ [])
      × ((s'.nodes new).varval ≡ varval)
      × (s'.memory ≡ s.memory)
unfolding var_add
var_add-Variables s name ns varname varval xs v some_break fits text =
    let new = break_of s.kernel in
    let node : VarList = record { varname = varname; varval = varval; next = 0 } in
    let room : ltb (new + 24) heap_top ≡ true = ground (arith, fits) in
    let m : ◌≡◌ {A = ℕ × Kernel} (malloc 24 s.kernel) (new, with_break (new + 24) s.kernel) =
      malloc-break_of 24 s.kernel (omega arith) (omega (arith, fits)) ∙ rw room refl in
    let at : (malloc 24 s.kernel).0 ≡ new = ap (λ (r : ℕ × Kernel). r.0) m in
    let fresh = NotIn-below new (s.head ∷ ns) v.below in
    let here = link-new s.nodes (last s.head ns) new node (NotIn-last new s.head ns fresh) in
    let block : Pcb = record (s.kernel.pcbs s.kernel.active) { user_brk_point = new + 24 } in
    let risen : break_of (malloc 24 s.kernel).1 ≡ new + 24 =
      ap (λ (r : ℕ × Kernel). break_of r.1) m
      ∙ ap (λ (p : Pcb). p.user_brk_point) (update_self s.kernel.pcbs s.kernel.active block) in
    let low : All (λ a. a < break_of (malloc 24 s.kernel).1) ((s.head ∷ ns) ++ new ∷ []) =
      subst (λ b. All (λ a. a < b) ((s.head ∷ ns) ++ new ∷ [])) (sym risen)
        (All-append (λ a. a < new + 24) (s.head ∷ ns) (new ∷ [])
          (All-rise new (new + 24) (s.head ∷ ns) (omega arith) v.below) (omega arith, tt)) in
    rw (at, v.end_)
      (
        record {
          chain =
              Linked-link s.nodes new node s.head ns (λ e. omega (arith, e, some_break)) refl fresh
                v.apart v.chain;
          end_ = sym (last-append s.head ns new);
          apart = Distinct-snoc (s.head ∷ ns) new v.apart fresh;
          below = low;
          names =
              All-append
                (λ a.
                  Text s.memory (link s.nodes (last s.head ns) new node a).varname
                    (update name new xs a))
                ns (new ∷ [])
                (old_names s.memory s.nodes (last s.head ns) new node name xs ns fresh.1 v.names)
                (rw (here, update_self name new xs) text, tt);
        },
        ap (λ (n : VarList). n.varval) here,
        refl,
      )

pub value_of-var_find :
    (f name v : ℕ) (s : Environment)
    → var_find f name s ≡ some v
    → v ≢ 0
    → value_of f name s ≡ some (s.nodes v).varval
unfolding value_of
value_of-var_find f name v s found some_node =
    let set : (v == 0) ≡ false = ne→== v 0 some_node in rw (found, set) refl
