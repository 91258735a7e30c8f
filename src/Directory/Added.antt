-- ===== src/Directory/Added.antt =====
-- The kernel's `add_dent` and the program's `readdir` agree: an entry that is added is listed.
use my_sbuos.Base.{
  ℕ, zero, suc, ◌+◌, ◌-◌, ◌*◌, ◌/◌, ◌%◌, ◌^◌, ◌≤◌, ◌<◌, ◌≡◌, refl, sym, ap₂, ◌∙◌, ◌⊎◌, inl, inr,
  true, some, List, [], ◌∷◌, ◌++◌, arith, ◌==◌, length, length-append, update, update_self,
  update_other, Holds-agree, subst,
}
use my_sbuos.Text.{kstrcpy, kstrstartswith}
use my_sbuos.Text.Strings.{IsString, starts_with, kstrstartswith-starts_with}
use my_sbuos.Text.Copy.{Apart, kstrcpy-Copied}
use my_sbuos.Tar.Dents.{dirent_size, name_max, store, count_slashes, add_dent}
use my_sbuos.Exec.{load}
use my_sbuos.Directory.{d_ino, d_reclen}
use my_sbuos.Directory.Listing.{Lists}

store-other : (n p v j : ℕ) (m : ℕ → ℕ) → (j < p) ⊎ (p + n ≤ j) → store n p v m j ≡ m j
unfolding store
store-other zero p v j m out = refl
store-other (suc n) p v j m out =
    store-other n (suc p) (v / 256) j (update m p (v % 256)) (ground (arith, out))
    ∙ update_other m p j (v % 256) (λ e. ground (arith, out, e))

load-agree :
    (n p : ℕ) (m m' : ℕ → ℕ) → ((j : ℕ) → p ≤ j → j < p + n → m' j ≡ m j) → load n m' p ≡ load n m p
unfolding load
load-agree zero p m m' same = refl
load-agree (suc n) p m m' same =
    ap₂ (λ a b. a + 256 * b) (same p (omega arith) (omega arith))
      (load-agree n (suc p) m m' (λ j a b. same j (omega (arith, a)) (omega (arith, b))))

-- A number of `n` bytes is read back.
abbrev power_256 : ℕ → ℕ
power_256 zero = 1
power_256 (suc n) = 256 * power_256 n

load-store : (n p v : ℕ) (m : ℕ → ℕ) → v < power_256 n → load n (store n p v m) p ≡ v
unfolding load store
load-store zero p v m small = omega (arith, small)
load-store (suc n) p v m small =
    let first : store n (suc p) (v / 256) (update m p (v % 256)) p ≡ v % 256 =
      store-other n (suc p) (v / 256) p (update m p (v % 256)) (inl (omega arith))
      ∙ update_self m p (v % 256) in
    let rest = load-store n (suc p) (v / 256) (update m p (v % 256)) (omega (arith, small)) in
    rw (first, rest) (omega arith)

IsString-agree :
    (m m' : ℕ → ℕ) (p : ℕ) (xs : List ℕ)
    → ((j : ℕ) → p ≤ j → j < p + length xs + 1 → m' j ≡ m j)
    → IsString m p xs
    → IsString m' p xs
IsString-agree m m' p xs same h =
    let len = length-append xs (0 ∷ []) in
    record {
      bytes = h.bytes;
      held = Holds-agree m m' p (xs ++ 0 ∷ []) (λ j a b. same j a (omega (arith, b, len))) h.held;
    }

-- Entries that keep their bytes stay in front of what stands behind them.
Lists-append :
    (m m' : ℕ → ℕ) (q : ℕ) (names more : List (List ℕ))
    → Lists m q names
    → ((j : ℕ) → q ≤ j → j < q + dirent_size * length names → m' j ≡ m j)
    → Lists m' (q + dirent_size * length names) more
    → Lists m' q (names ++ more)
Lists-append m m' q [] more h same k = subst (λ r. Lists m' r more) (omega arith) k
Lists-append m m' q (xs ∷ names) more h same k =
    let ino : d_ino m' q ≡ d_ino m q = load-agree 8 q m m' (λ j a b. same j a (omega (arith, b))) in
    let len : d_reclen m' q ≡ d_reclen m q =
      load-agree 2 (q + 16) m m' (λ j a b. same j (omega (arith, a)) (omega (arith, b))) in
    (
      λ z. h.0 (sym ino ∙ z),
      len ∙ h.1,
      IsString-agree m m' (q + 18) xs (λ j a b. same j (omega (arith, a)) (omega (arith, b, h.3)))
          h.2,
      h.3,
      Lists-append m m' (q + dirent_size) names more h.4
          (λ j a b. same j (omega (arith, a)) (omega (arith, b)))
          (subst (λ r. Lists m' r more) (omega arith) k),
    )

starts_with-append : (xs ys : List ℕ) → starts_with (xs ++ ys) xs ≡ true
starts_with-append [] [] = refl
starts_with-append [] (y ∷ ys) = refl
starts_with-append (x ∷ xs) ys =
    let same : (x == x) ≡ true = ground arith in rw (same, starts_with-append xs ys) refl

IsString-tail_of :
    (m : ℕ → ℕ) (p : ℕ) (pre rest : List ℕ)
    → IsString m p (pre ++ rest)
    → IsString m (p + length pre) rest
IsString-tail_of m p [] rest h = subst (λ q. IsString m q rest) (omega arith) h
IsString-tail_of m p (x ∷ pre) rest h =
    subst (λ q. IsString m q rest) (omega arith)
      (IsString-tail_of m (suc p) pre rest (record { bytes = h.bytes.1; held = h.held.1 }))

add_dent_run :
    (k path l ll p buffer n len : ℕ) (m m' : ℕ → ℕ)
    → kstrstartswith k m p path ≡ some 1
    → count_slashes (ll - 1 - l) m p l ≡ 0
    → (let at = buffer + n * dirent_size in
        kstrcpy k (at + 18) (p + l) name_max (store 2 (at + 16) dirent_size (store 8 at (n + 1) m))
        ≡ some (len, m'))
    → add_dent k path l ll p buffer n m ≡ some (suc n, m')
unfolding add_dent
add_dent_run k path l ll p buffer n len m m' begins flat copied = rw (begins, flat, copied) refl

-- When the header's name is the directory's path with `rest` behind it, with no slash inside, and lies
-- clear of the buffer, and the entry behind the new one has the number 0, `add_dent` ends, and a reader
-- of the buffer finds `rest` behind the names that it found before.
pub add_dent-Lists :
    (k path ll p buffer : ℕ) (m : ℕ → ℕ) (names : List (List ℕ)) (pre rest : List ℕ)
    → Lists m buffer names
    → d_ino m (buffer + dirent_size * (length names + 1)) ≡ 0
    → length names + 1 < 2 ^ 64
    → IsString m path pre
    → IsString m p (pre ++ rest)
    → count_slashes (ll - 1 - length pre) m p (length pre) ≡ 0
    → length rest ≤ name_max
    → Apart buffer (dirent_size * (length names + 1)) (p + length pre) (length rest + 1)
    → length pre < k
    → length rest < k
    → (m' : ℕ → ℕ) × (add_dent k path (length pre) ll p buffer (length names) m
        ≡ some (suc (length names), m'))
      × Lists m' buffer (names ++ rest ∷ [])
add_dent-Lists k path ll p buffer m names pre rest listed last room here header flat short clear
      fuel₁ fuel₂ =
    let l = length pre in
    let tail : IsString m (p + l) rest = IsString-tail_of m p pre rest header in
    let n = length names in
    let at = buffer + n * dirent_size in
    let m1 = store 8 at (n + 1) m in
    let numbered = store 2 (at + 16) dirent_size m1 in
    let kept : (j : ℕ) → (j < at) ⊎ (at + 18 ≤ j) → numbered j ≡ m j = λ j out.
      store-other 2 (at + 16) dirent_size j m1 (ground (arith, out))
      ∙ store-other 8 at (n + 1) j m (ground (arith, out)) in
    let name : IsString numbered (p + l) rest =
      IsString-agree m numbered (p + l) rest (λ j a b. kept j (ground (arith, a, b, clear))) tail in
    let c =
      kstrcpy-Copied k (at + 18) (p + l) name_max rest numbered name (ground (arith, clear, short))
        short fuel₂ in
    let m' = c.0 in
    let begin : kstrstartswith k m p path ≡ some 1 =
      kstrstartswith-starts_with k m p path (pre ++ rest) pre header here fuel₁
      ∙ rw (starts_with-append pre rest) refl in
    let same : (j : ℕ) → (j < at) ⊎ (at + dirent_size ≤ j) → m' j ≡ m j =
      λ j out. c.2.others j (ground (arith, out, short)) ∙ kept j (ground (arith, out)) in
    let low : (j : ℕ) → at ≤ j → j < at + 18 → m' j ≡ numbered j =
      λ j a b. c.2.others j (inl (omega (arith, b))) in
    let number : d_ino m' at ≡ n + 1 =
      load-agree 8 at numbered m' (λ j a b. low j a (omega (arith, b)))
      ∙ load-agree 8 at m1 numbered
          (λ j a b. store-other 2 (at + 16) dirent_size j m1 (inl (omega (arith, b))))
      ∙ load-store 8 at (n + 1) m (omega (arith, room)) in
    let len : d_reclen m' at ≡ dirent_size =
      load-agree 2 (at + 16) numbered m' (λ j a b. low j (omega (arith, a)) (omega (arith, b)))
      ∙ load-store 2 (at + 16) dirent_size m1 (omega arith) in
    let next : d_ino m' (at + dirent_size) ≡ 0 =
      load-agree 8 (at + dirent_size) m m' (λ j a b. same j (inr a))
      ∙ subst (λ q. d_ino m q ≡ 0) (omega arith) last in
    let new : Lists m' at (rest ∷ []) =
      ((λ z. omega (arith, number, z)), len, c.2.string, short, next) in
    (
      m',
      add_dent_run k path l ll p buffer n (length rest) m m' begin flat c.1,
      Lists-append m m' buffer names (rest ∷ []) listed (λ j a b. same j (inl (omega (arith, b))))
          (subst (λ q. Lists m' q (rest ∷ [])) (omega arith) new),
    )
