-- ===== src/Directory/Listing.antt =====
-- What a program reads from a directory with `readdir`.
use my_sbuos.Base.{
  ℕ, zero, suc, ◌+◌, ◌*◌, ◌%◌, ◌^◌, ◌≤◌, ◌<◌, ◌≡◌, refl, ◌≢◌, true, false, Option, none, some, List,
  [], ◌∷◌, arith, ◌==◌, if◌then◌else◌, ◌>>=◌, ne→==, length, subst,
}
use my_sbuos.Text.Strings.{IsString}
use my_sbuos.Tar.Dents.{dirent_size, name_max}
use my_sbuos.Directory.{Dir, d_ino, d_reclen, readdir}

-- The entries from `p` on have these names, and behind them stands one with the number 0.
abbrev pub Lists : (m : ℕ → ℕ) (p : ℕ) → List (List ℕ) → Type 0
Lists m p [] = d_ino m p ≡ 0
Lists m p (xs ∷ names) =
    (d_ino m p ≢ 0)
    × (d_reclen m p ≡ dirent_size)
    × IsString m (p + 18) xs
    × (length xs ≤ name_max)
    × Lists m (p + dirent_size) names

-- `readdir` until it returns 0: the entries, and the `DIR` at the end.
abbrev pub read_all : (f : ℕ) (m : ℕ → ℕ) → Dir → Option (List ℕ × Dir)
read_all zero m d = none
read_all (suc f) m d =
    let r = readdir m d in
    let rest = read_all f m r.1 >>= λ q. some (r.0 ∷ q.0, q.1) in
    if r.0 == 0 then some ([], r.1) else rest

-- The entries read have the names, in order.
abbrev pub Named : (m : ℕ → ℕ) → List ℕ → List (List ℕ) → Type 0
Named m [] [] = Unit {0}
Named m [] (xs ∷ names) = ⊥
Named m (p ∷ ps) [] = ⊥
Named m (p ∷ ps) (xs ∷ names) = IsString m (p + 18) xs × Named m ps names

read_all_step :
    (f p : ℕ) (m : ℕ → ℕ) (d d1 d' : Dir) (ps : List ℕ)
    → readdir m d ≡ (p, d1)
    → p ≢ 0
    → read_all f m d1 ≡ some (ps, d')
    → read_all (suc f) m d ≡ some (p ∷ ps, d')
read_all_step f p m d d1 d' ps r nz rest =
    let more : (p == 0) ≡ false = ne→== p 0 nz in rw (r, more, rest) refl

pub readdir_entry :
    (m : ℕ → ℕ) (d : Dir)
    → d_ino m (d.dents + d.offset) ≢ 0
    → d_reclen m (d.dents + d.offset) ≡ dirent_size
    → d.offset + dirent_size < 2 ^ 64
    → readdir m d ≡ (d.dents + d.offset, record d { offset = d.offset + dirent_size })
unfolding readdir
readdir_entry m d nz len small =
    let p = d.dents + d.offset in
    let more : (d_ino m p == 0) ≡ false = ne→== (d_ino m p) 0 nz in
    let step : (d.offset + d_reclen m p) % 2 ^ 64 ≡ d.offset + dirent_size =
      rw len (omega (arith, small)) in
    rw (more, step) refl

pub readdir_end : (m : ℕ → ℕ) (d : Dir) → d_ino m (d.dents + d.offset) ≡ 0 → readdir m d ≡ (0, d)
unfolding readdir
readdir_end m d h =
    let stop : (d_ino m (d.dents + d.offset) == 0) ≡ true = rw h refl in rw stop refl

-- On a list of entries that lies below 2 ^ 64, `readdir` returns each entry once, in order, and then 0
-- for good; the calls end.
pub readdir-Lists :
    (f : ℕ) (m : ℕ → ℕ) (d : Dir) (names : List (List ℕ))
    → Lists m (d.dents + d.offset) names
    → 0 < d.dents
    → d.offset + dirent_size * length names < 2 ^ 64
    → length names < f
    → (ps : List ℕ) × (d' : Dir) × (read_all f m d ≡ some (ps, d'))
      × Named m ps names
      × (readdir m d' ≡ (0, d'))
readdir-Lists zero m d names h pos small fuel = absurd (omega (arith, fuel))
readdir-Lists (suc f) m d [] h pos small fuel =
    let stop = readdir_end m d h in ([], d, rw stop refl, tt, stop)
readdir-Lists (suc f) m d (xs ∷ names) h pos small fuel =
    let p = d.dents + d.offset in
    let d1 : Dir = record d { offset = d.offset + dirent_size } in
    let r =
      readdir-Lists f m d1 names (subst (λ q. Lists m q names) (omega arith) h.4) pos
        (omega (arith, small)) (omega (arith, fuel)) in
    (
      p ∷ r.0,
      r.1,
      read_all_step f p m d d1 r.1 r.0 (readdir_entry m d h.0 h.1 (omega (arith, small)))
          (λ e. omega (arith, pos, e)) r.2,
      (h.2, r.3),
      r.4,
    )
