-- ===== src/Shell.antt =====
-- bin/sbush/strutil.c: the shell's strings. `m` is the memory by byte, and an `int` is its bit pattern
-- below 2 ^ 32. A string is measured up to `max_str_len` characters.
pub mod Compare
pub mod Join
mod Tests
use my_sbuos.Base.{
  ℕ, zero, suc, ◌+◌, ◌-◌, ◌*◌, ◌/◌, ◌%◌, ◌^◌, ◌≤◌, ◌<◌, ◌≡◌, refl, sym, ap, ap₂, ◌∙◌, ◌≢◌, ◌⊎◌, inl,
  inr, Bool, true, false, not, ◌&&◌, ◌||◌, Option, none, some, List, [], ◌∷◌, ◌++◌, map, append-nil,
  append_assoc, arith, ltb, leb, ◌==◌, if◌then◌else◌, Bool-cases, Option-cases, ◌>>=◌, ltb→lt,
  lt→ltb, leb→le, eq→==, ne→==, ==_iff, length, get_or, length-append, All, All-append, NotIn,
  Distinct, NotIn-append, Distinct-snoc, mem, NotIn-of_mem, mem_of_NotIn, mem-append, update,
  update_self, update_other, Holds, Holds-agree, Holds-append, Holds-append_left,
  Holds-append_right, subst,
}
use my_sbuos.Text.{char_diff}

abbrev pub max_str_len : ℕ
max_str_len = 2040

abbrev pub none_found : ℕ
none_found = 2 ^ 32 - 1

pub strlen_loop : (left : ℕ) → (m : ℕ → ℕ) (s i : ℕ) → ℕ
strlen_loop zero m s i = none_found
strlen_loop (suc n) m s i =
    let rest = strlen_loop n m s (suc i) in if m (s + i) == 0 then i else rest

pub strlen : (m : ℕ → ℕ) (s : ℕ) → ℕ
strlen m s = strlen_loop max_str_len m s 0

-- The rounds of `for (i = 0; i < l; i++)`: none for a negative `l`.
unfoldable pub rounds : ℕ → ℕ
rounds l = if ltb l (2 ^ 31) then l else 0

-- `t + l` for an `int` `l`.
pub shift : (t l : ℕ) → ℕ
shift t l = if ltb l (2 ^ 31) then t + l else t + l - 2 ^ 32

-- Copies from `s` to `t`.
pub strcpy_loop : (left : ℕ) → (s t l : ℕ) → (ℕ → ℕ) → ℕ × (ℕ → ℕ)
strcpy_loop zero s t l m = (l, m)
strcpy_loop (suc n) s t l m =
    let m' = update m t (m s) in
    let rest = strcpy_loop n (suc s) (suc t) (suc l) m' in
    if m' (suc s) == 0 then (suc l, m') else rest

pub strcpy : (s t : ℕ) → (ℕ → ℕ) → ℕ × (ℕ → ℕ)
strcpy s t m = strcpy_loop max_str_len s t 0 m

-- `for (i < l) t[i] = s[i + start]`.
pub move_loop : (left : ℕ) → (s t i : ℕ) → (ℕ → ℕ) → ℕ → ℕ
move_loop zero s t i m = m
move_loop (suc n) s t i m = move_loop n s t (suc i) (update m (t + i) (m (s + i)))

pub strcpy_fr_to : (s t start end_ : ℕ) → (ℕ → ℕ) → ℕ × (ℕ → ℕ)
strcpy_fr_to s t start end_ m =
    let l = (end_ + (2 ^ 32 - start)) % 2 ^ 32 in
    (l, update (move_loop (rounds l) (shift s start) t 0 m) (shift t l) 0)

pub strcpy_from : (s t start : ℕ) → (ℕ → ℕ) → ℕ × (ℕ → ℕ)
strcpy_from s t start m =
    let l = strlen m s in
    ((start + l) % 2 ^ 32, move_loop (if l == none_found then 0 else suc l) s (shift t start) 0 m)

pub strsearch_loop : (left : ℕ) → (m : ℕ → ℕ) (s c i : ℕ) → ℕ
strsearch_loop zero m s c i = none_found
strsearch_loop (suc n) m s c i =
    let rest = strsearch_loop n m s c (suc i) in if m (s + i) == c then i else rest

pub strsearch : (m : ℕ → ℕ) (s c : ℕ) → ℕ
strsearch m s c = strsearch_loop (rounds (strlen m s)) m s c 0

pub strprefix_loop : (left : ℕ) → (m : ℕ → ℕ) (pref str i : ℕ) → ℕ
strprefix_loop zero m pref str i = none_found
strprefix_loop (suc n) m pref str i =
    let rest = strprefix_loop n m pref str (suc i) in
    if m (pref + i) == m (str + i) then rest else 0

-- -1 for yes.
pub strprefix : (m : ℕ → ℕ) (pref str : ℕ) → ℕ
strprefix m pref str = strprefix_loop (rounds (strlen m pref)) m pref str 0

pub strcomp_loop : (left : ℕ) → (m : ℕ → ℕ) (str1 str2 i : ℕ) → ℕ
strcomp_loop zero m str1 str2 i = 0
strcomp_loop (suc n) m str1 str2 i =
    let rest = strcomp_loop n m str1 str2 (suc i) in
    let d = char_diff (m (str1 + i)) (m (str2 + i)) in if d == 0 then rest else d

pub strcomp : (m : ℕ → ℕ) (str1 str2 : ℕ) → ℕ
strcomp m str1 str2 =
    let d = (strlen m str1 + (2 ^ 32 - strlen m str2)) % 2 ^ 32 in
    if d == 0 then strcomp_loop (rounds (strlen m str1)) m str1 str2 0 else d

pub strreverse_loop : (left : ℕ) → (str l i : ℕ) → (ℕ → ℕ) → ℕ → ℕ
strreverse_loop zero str l i m = m
strreverse_loop (suc n) str l i m =
    strreverse_loop n str l (suc i)
      (update (update m (str + (l - 1 - i)) (m (str + i))) (str + i) (m (str + (l - 1 - i))))

-- For `i <= (l - 1) / 2`, with C's division: one round for the empty string too, which touches the
-- byte before it, and none when `strlen` has found no end.
pub strreverse : (str : ℕ) → (ℕ → ℕ) → ℕ → ℕ
strreverse str m =
    let l = strlen m str in
    if l == none_found
    then m
    else if l == 0
    then update (update m (str - 1) (m str)) str (m (str - 1))
    else strreverse_loop (suc ((l - 1) / 2)) str l 0 m

-- The loop over the string ends within the fuel.
pub strcount_loop : ℕ → (m : ℕ → ℕ) (t q count : ℕ) → Option ℕ
strcount_loop zero m t q count = none
strcount_loop (suc f) m t q count =
    let rest = strcount_loop f m (suc t) q (if m t == q then suc count else count) in
    if m t == 0 then some count else rest

pub strcount : ℕ → (m : ℕ → ℕ) (str q : ℕ) → Option ℕ
strcount f m str q = strcount_loop f m str q 0

pub strremove_loop : ℕ → (str q i j : ℕ) → (ℕ → ℕ) → Option (ℕ × (ℕ → ℕ))
strremove_loop zero str q i j m = none
strremove_loop (suc f) str q i j m =
    let m' = update m (str + j) (m (str + i)) in
    let rest = strremove_loop f str q (suc i) (if m' (str + j) == q then j else suc j) m' in
    if m (str + j) == 0 then some (j, m) else rest

pub strremove : ℕ → (str q : ℕ) → (ℕ → ℕ) → Option (ℕ × (ℕ → ℕ))
strremove f str q m = strremove_loop f str q 0 0 m

-- `for(; i; i /= 10)`: the remainder of a negative number is negative, and a byte is kept of the sum.
pub itoa_r_loop : (f : ℕ) (negative : Bool) (n buf : ℕ) → (ℕ → ℕ) → ℕ → ℕ
itoa_r_loop zero negative n buf m = m
itoa_r_loop (suc f) negative n buf m =
    let digit = if negative then 48 - n % 10 else 48 + n % 10 in
    let rest = itoa_r_loop f negative (n / 10) (suc buf) (update m buf digit) in
    if n == 0 then update m buf 0 else rest

pub itoa_r : (buf i : ℕ) → (ℕ → ℕ) → ℕ × (ℕ → ℕ)
itoa_r buf i m =
    let negative = leb (2 ^ 31) i in
    let n = if negative then 2 ^ 32 - i else i in (0, itoa_r_loop (suc n) negative n buf m)

pub itoa : (buf i : ℕ) → (ℕ → ℕ) → ℕ → ℕ
itoa buf i m =
    if i == 0 then update (update m buf 48) (buf + 1) 0 else strreverse buf (itoa_r buf i m).1

-- `x >= y` for two `int`s.
abbrev pub int_ge : (x y : ℕ) → Bool
int_ge x y = leb ((y + 2 ^ 31) % 2 ^ 32) ((x + 2 ^ 31) % 2 ^ 32)

-- `for(; i<pref_l+suf_l; i++)` with the rounds that are left.
pub strcat_loop : (left : ℕ) → (suffix buffer pref_l i : ℕ) → (ℕ → ℕ) → ℕ → ℕ
strcat_loop zero suffix buffer pref_l i m = m
strcat_loop (suc n) suffix buffer pref_l i m =
    strcat_loop n suffix buffer pref_l (suc i)
      (update m (buffer + i) (m (shift suffix ((i + (2 ^ 32 - pref_l)) % 2 ^ 32))))

-- The messages for a suffix in the buffer are left out.
pub strcat : (prefix suffix buffer buffer_size : ℕ) → (ℕ → ℕ) → ℕ × (ℕ → ℕ)
strcat prefix suffix buffer buffer_size m =
    let pref_l = strlen m prefix in
    let suf_l = strlen m suffix in
    let i = rounds pref_l in
    let n = rounds ((pref_l + suf_l) % 2 ^ 32) - i in
    let joined = strcat_loop n suffix buffer pref_l i (move_loop i prefix buffer 0 m) in
    if suffix == buffer
    then (none_found, m)
    else if int_ge ((pref_l + suf_l + 1) % 2 ^ 32) buffer_size
    then (none_found, m)
    else (0, update joined (buffer + (i + n)) 0)
