-- ===== src/Tar/Octal.antt =====
-- The size field of a header: eleven octal digits.
use my_sbuos.Base.{
  ℕ, zero, suc, ◌+◌, ◌-◌, ◌*◌, ◌/◌, ◌%◌, ◌^◌, ◌<◌, ◌≡◌, refl, ap, ◌∙◌, List, [], ◌∷◌, ◌++◌, arith,
  length, length-append, Holds, Holds-append_left, Holds-append_right,
}
use native.Mathlib.Nat.{pow-suc}
use my_sbuos.Tar.{char_to_u64, tar_size_loop, tar_size}

-- The lowest `k` octal digits of `n` as characters, the highest first.
abbrev pub octal : (k n : ℕ) → List ℕ
octal zero n = []
octal (suc k) n = octal k (n / 8) ++ (48 + n % 8) ∷ []

length-octal : (k n : ℕ) → length (octal k n) ≡ k
length-octal zero n = refl
length-octal (suc k) n =
    length-append (octal k (n / 8)) ((48 + n % 8) ∷ []) ∙ omega (arith, length-octal k (n / 8))

digit_lem :
    (r d : ℕ)
    → d < 8
    → r * 8 + d < 2 ^ 64
    → (r * 8 + (char_to_u64 (48 + d) + (2 ^ 64 - 48))) % 2 ^ 64 ≡ r * 8 + d
unfolding char_to_u64
digit_lem r d h small = ground arith

-- the loop's last digit
loop-last :
    (k : ℕ) (m : ℕ → ℕ) (s res : ℕ)
    → tar_size_loop (suc k) m s res
      ≡ (tar_size_loop k m s res * 8 + (char_to_u64 (m (s + k)) + (2 ^ 64 - 48))) % 2 ^ 64
unfolding tar_size_loop
loop-last zero m s res =
    ap (λ i. (res * 8 + (char_to_u64 (m i) + (2 ^ 64 - 48))) % 2 ^ 64) (omega arith)
loop-last (suc k) m s res =
    loop-last k m (suc s) ((res * 8 + (char_to_u64 (m s) + (2 ^ 64 - 48))) % 2 ^ 64)
    ∙ ap (λ i. (tar_size_loop (suc k) m s res * 8 + (char_to_u64 (m i) + (2 ^ 64 - 48))) % 2 ^ 64)
        (omega arith)

loop-octal :
    (k n : ℕ) (m : ℕ → ℕ) (s : ℕ)
    → n < 8 ^ k
    → n < 2 ^ 63
    → Holds m s (octal k n)
    → tar_size_loop k m s 0 ≡ n
unfolding tar_size_loop
loop-octal zero n m s h small held = omega arith
loop-octal (suc k) n m s h small held =
    let front = Holds-append_left m s (octal k (n / 8)) ((48 + n % 8) ∷ []) held in
    let back = Holds-append_right m s (octal k (n / 8)) ((48 + n % 8) ∷ []) held in
    let place : m (s + k) ≡ 48 + n % 8 = ap m (omega (arith, length-octal k (n / 8))) ∙ back.0 in
    let prior : tar_size_loop k m s 0 ≡ n / 8 =
      loop-octal k (n / 8) m s (let e : 8 ^ suc k ≡ 8 ^ k * 8 = pow-suc 8 k in omega (arith, e))
        (omega arith) front in
    loop-last k m s 0
    ∙ rw (place, prior) (digit_lem (n / 8) (n % 8) (omega arith) (omega arith) ∙ omega arith)

-- A size below 8 ^ 11 that is written as eleven octal digits is read back as it was.
pub tar_size-octal :
    (n : ℕ) (m : ℕ → ℕ) (s : ℕ) → n < 8 ^ 11 → Holds m s (octal 11 n) → tar_size m s ≡ n
unfolding tar_size
tar_size-octal n m s h held = loop-octal 11 n m s h (omega arith) held
