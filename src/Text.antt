-- ===== src/Text.antt =====
-- sys/sysutil.c: zero-terminated strings in the memory. `m` is the memory by address, a byte is a
-- number below 256, and an `int` is its bit pattern below 2 ^ 32. A loop over a string runs on fuel;
-- `none` means that it has not ended.
pub mod Strings
pub mod Copy
mod Tests
use my_sbuos.Base.{
  ℕ, zero, suc, ◌+◌, ◌-◌, ◌*◌, ◌/◌, ◌%◌, ◌^◌, ◌≤◌, ◌<◌, ◌≡◌, refl, sym, ap, ap₂, ◌∙◌, ◌≢◌, ◌⊎◌, inl,
  inr, Bool, true, false, not, ◌&&◌, ◌||◌, Option, none, some, List, [], ◌∷◌, ◌++◌, map, append-nil,
  append_assoc, arith, ltb, leb, ◌==◌, if◌then◌else◌, Bool-cases, Option-cases, ◌>>=◌, ltb→lt,
  lt→ltb, leb→le, eq→==, ne→==, ==_iff, length, get_or, length-append, All, All-append, NotIn,
  Distinct, NotIn-append, Distinct-snoc, mem, NotIn-of_mem, mem_of_NotIn, mem-append, update,
  update_self, update_other, Holds, Holds-agree, Holds-append, Holds-append_left,
  Holds-append_right, subst,
}

pub kstrlen_loop : ℕ → (m : ℕ → ℕ) (s i : ℕ) → Option ℕ
kstrlen_loop zero m s i = none
kstrlen_loop (suc f) m s i =
    let rest = kstrlen_loop f m s (suc i) in if m (s + i) == 0 then some i else rest

pub kstrlen : ℕ → (m : ℕ → ℕ) (s : ℕ) → Option ℕ
kstrlen f m s = kstrlen_loop f m s 0

abbrev pub minus_one : ℕ
minus_one = 2 ^ 32 - 1

-- The returned number and the memory.
pub kstrcpy_loop : ℕ → (dest src size i : ℕ) → (ℕ → ℕ) → Option (ℕ × (ℕ → ℕ))
kstrcpy_loop zero dest src size i m = none
kstrcpy_loop (suc f) dest src size i m =
    let m' = update m (dest + i) (m (src + i)) in
    let rest = kstrcpy_loop f dest src size (suc i) m' in
    if m (src + i) == 0
    then some (i, update m (dest + i) 0)
    else if leb size i
    then some (minus_one, m')
    else rest

pub kstrcpy : ℕ → (dest src size : ℕ) → (ℕ → ℕ) → Option (ℕ × (ℕ → ℕ))
kstrcpy f dest src size m = kstrcpy_loop f dest src size 0 m

-- A `char` is signed: the pattern of the `int` that it becomes.
pub char_to_int : ℕ → ℕ
char_to_int c = if ltb c 128 then c else c + (2 ^ 32 - 256)

pub char_diff : ℕ → ℕ → ℕ
char_diff a b = (char_to_int a + (2 ^ 32 - char_to_int b)) % 2 ^ 32

pub kstrcmp_loop : ℕ → (m : ℕ → ℕ) (s1 s2 i : ℕ) → Option ℕ
kstrcmp_loop zero m s1 s2 i = none
kstrcmp_loop (suc f) m s1 s2 i =
    let rest = kstrcmp_loop f m s1 s2 (suc i) in
    if m (s1 + i) == 0
    then some 0
    else if m (s1 + i) == m (s2 + i)
    then rest
    else some (char_diff (m (s1 + i)) (m (s2 + i)))

pub kstrcmp : ℕ → (m : ℕ → ℕ) (s1 s2 : ℕ) → Option ℕ
kstrcmp f m s1 s2 = kstrlen f m s1 >>= λ l1. kstrlen f m s2 >>= λ l2.
    if l1 == l2
    then kstrcmp_loop f m s1 s2 0
    else if ltb l1 l2
    then some (char_diff (m (s1 + l1)) (m (s2 + l1)))
    else some (char_diff (m (s1 + l2)) (m (s2 + l2)))

-- `kstrstartswith` from the index `i` on; its result as a number.
pub kstrstartswith_loop : ℕ → (m : ℕ → ℕ) (target prefix i : ℕ) → Option ℕ
kstrstartswith_loop zero m target prefix i = none
kstrstartswith_loop (suc f) m target prefix i =
    let rest = kstrstartswith_loop f m target prefix (suc i) in
    if m (prefix + i) == 0
    then some 1
    else if m (target + i) == m (prefix + i)
    then rest
    else some 0

pub kstrstartswith : ℕ → (m : ℕ → ℕ) (target prefix : ℕ) → Option ℕ
kstrstartswith f m target prefix = kstrstartswith_loop f m target prefix 0

-- Each loop of `kstrcat` returns the index at which it stopped.
pub kstrcat_loop : ℕ → (src buffer i j : ℕ) → (ℕ → ℕ) → Option (ℕ × (ℕ → ℕ))
kstrcat_loop zero src buffer i j m = none
kstrcat_loop (suc f) src buffer i j m =
    let rest = kstrcat_loop f src buffer (suc i) (suc j) (update m (buffer + i) (m (src + j))) in
    if m (src + j) == 0 then some (i, m) else rest

pub kstrcat : ℕ → (st1 st2 buffer size : ℕ) → (ℕ → ℕ) → Option (ℕ × (ℕ → ℕ))
kstrcat f st1 st2 buffer size m = kstrcat_loop f st1 buffer 0 0 m >>= λ r.
    kstrcat_loop f st2 buffer r.0 0 r.1 >>= λ q. some (0, update q.1 (buffer + q.0) 0)
