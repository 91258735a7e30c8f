-- ===== src/Paths.antt =====
-- sys/sysutil.c: the paths. `m` is the memory by byte, `temp` the address of `temp_path`, and `parts`
-- the array of pointers, 0 for NULL, taken as total. The source tests neither the number of parts nor
-- the end of the buffer. `root`, `dot`, `dotdot` and `dot_slash` are the addresses of the literals;
-- `f` bounds the rounds over the parts and `k` the length of a string.
use my_sbuos.Base.{
  ℕ, zero, suc, ◌+◌, ◌-◌, true, false, not, ◌&&◌, Option, none, some, ltb, leb, ◌==◌, if◌then◌else◌,
  ◌>>=◌, update,
}
use my_sbuos.Text.{kstrlen, kstrcpy, kstrcmp, kstrstartswith, kstrcat}

abbrev pub slash : ℕ
slash = 47

abbrev pub max_parts : ℕ
max_parts = 15

pub record Literals : Type 0 where
  pub root : ℕ
  pub dot : ℕ
  pub dotdot : ℕ
  pub dot_slash : ℕ

-- `for (i < size) temp_path[i] = buffer[i]`
pub copy_temp : (left : ℕ) → (temp buffer i : ℕ) → (ℕ → ℕ) → ℕ → ℕ
copy_temp zero temp buffer i m = m
copy_temp (suc n) temp buffer i m =
    copy_temp n temp buffer (suc i) (update m (temp + i) (m (buffer + i)))

-- The parts found and the copy cut at the slashes.
pub split_parts :
    (left : ℕ) → (temp buffer i part_pointer : ℕ) → (parts m : ℕ → ℕ) → (ℕ → ℕ) × (ℕ → ℕ)
split_parts zero temp buffer i part_pointer parts m = (parts, m)
split_parts (suc n) temp buffer i part_pointer parts m =
    let cut =
      split_parts n temp buffer (suc i) (suc part_pointer)
        (update parts part_pointer (temp + i + 1)) (update m (temp + i) 0) in
    let rest = split_parts n temp buffer (suc i) part_pointer parts m in
    if m (buffer + i) == 0 then (parts, m) else if m (buffer + i) == slash then cut else rest

-- The two loops that close a gap, of one part at `i` and of two.
pub drop_one : (ℕ → ℕ) → ℕ → ℕ → ℕ
drop_one parts i j = if leb i j && ltb j 14 then parts (j + 1) else parts j

pub drop_two : (ℕ → ℕ) → ℕ → ℕ → ℕ
drop_two parts i j = if leb i j && ltb j 13 then parts (j + 2) else parts j

-- One round over the parts: the parts and the index of the next round.
pub tidy_step : (k : ℕ) → Literals → (m parts : ℕ → ℕ) (i : ℕ) → Option ((ℕ → ℕ) × ℕ)
tidy_step k w m parts i =
    if m (parts i) == 0
    then some (drop_one parts i, i)
    else (kstrcmp k m (parts i) w.dot >>= λ r.
        if r == 0
        then some (drop_one parts i, i)
        else (kstrcmp k m (parts i) w.dotdot >>= λ q. some (
            if q == 0
            then if i == 0 then (drop_one parts i, i) else (drop_two parts (i - 1), i - 1)
            else (parts, suc i))))

pub tidy : (f k : ℕ) → Literals → (m parts : ℕ → ℕ) (i : ℕ) → Option (ℕ → ℕ)
tidy zero k w m parts i = none
tidy (suc f) k w m parts i = elim (ltb i max_parts && not (parts i == 0)) [
  | false ↦ some parts
  | true ↦ tidy_step k w m parts i >>= λ r. tidy f k w m r.0 r.1
]

-- The index behind the last part and the memory.
pub join_parts :
    (f k : ℕ) → (buffer : ℕ) (parts : ℕ → ℕ) (part_pointer i : ℕ) (m : ℕ → ℕ) → Option (ℕ × (ℕ → ℕ))
join_parts zero k buffer parts part_pointer i m = none
join_parts (suc f) k buffer parts part_pointer i m = elim (parts part_pointer == 0) [
  | true ↦ some (i, m)
  | false ↦ kstrlen k m (parts part_pointer) >>= λ l.
      kstrcpy k (buffer + i) (parts part_pointer) l m >>= λ c.
      join_parts f k buffer parts (suc part_pointer) (i + (l + 1))
        (update c.1 (buffer + i + l) slash)
]

pub cleanup_path : (f k temp : ℕ) → Literals → (buffer size : ℕ) → (ℕ → ℕ) → Option (ℕ → ℕ)
cleanup_path f k temp w buffer size m = kstrcmp k m buffer w.root >>= λ r.
    let first = update (λ j. 0) 0 temp in
    let found = split_parts size temp buffer 0 1 first (copy_temp size temp buffer 0 m) in
    let cleaned = tidy f k w found.1 found.0 0 >>= λ parts.
    join_parts f k buffer parts 0 1 (update found.1 buffer slash) >>= λ j.
    some (update j.1 (buffer + j.0 - 1) 0) in
    if r == 0 then some m else cleaned

pub path_merge :
    (f k temp : ℕ) → Literals → (base relative buffer size : ℕ) → (ℕ → ℕ) → Option (ℕ → ℕ)
path_merge f k temp w base relative buffer size m =
    kstrstartswith k m relative w.root >>= λ absolute.
    kstrstartswith k m relative w.dot_slash >>= λ here.
    (if not (absolute == 0)
      then kstrcpy k buffer relative size m
      else if not (here == 0)
      then kstrcat k base (relative + 2) buffer size m
      else kstrcat k base relative buffer size m)
    >>= λ r. cleanup_path f k temp w buffer size r.1
