-- ===== src/Shell/Compare.antt =====
-- `strcomp` on strings in the memory.
use my_sbuos.Base.{
  ℕ, zero, suc, ◌+◌, ◌-◌, ◌%◌, ◌^◌, ◌<◌, ◌≡◌, refl, ◌∙◌, ◌≢◌, inl, inr, true, false, List, [], ◌∷◌,
  arith, ltb, ◌==◌, Bool-cases, ne→==, length, subst,
}
use my_sbuos.Text.Strings.{IsString, same_text, same_text-length, char_diff-zero}
use my_sbuos.Shell.{max_str_len, strlen_loop, strlen, rounds, strcomp_loop, strcomp}

strlen_loop-length :
    (left : ℕ) (m : ℕ → ℕ) (s i : ℕ) (xs : List ℕ)
    → IsString m (s + i) xs
    → length xs < left
    → strlen_loop left m s i ≡ i + length xs
unfolding strlen_loop
strlen_loop-length zero m s i xs h fits = absurd (omega arith)
strlen_loop-length (suc n) m s i [] h fits = rw h.held.0 (omega arith)
strlen_loop-length (suc n) m s i (x ∷ xs) h fits =
    let more : (x == 0) ≡ false = ne→== x 0 h.bytes.0.0 in
    rw (h.held.0, more)
      (strlen_loop-length n m s (suc i) xs
          (subst (λ p. IsString m p xs) (omega arith)
            (record { bytes = h.bytes.1; held = h.held.1 }))
          (omega arith)
        ∙ omega arith)

pub strlen-length :
    (m : ℕ → ℕ) (s : ℕ) (xs : List ℕ)
    → IsString m s xs
    → length xs < max_str_len
    → strlen m s ≡ length xs
unfolding strlen
strlen-length m s xs h fits =
    strlen_loop-length max_str_len m s 0 xs (subst (λ p. IsString m p xs) (omega arith) h) fits
    ∙ omega arith

strcomp_loop-same_text :
    (m : ℕ → ℕ) (s1 s2 i : ℕ) (xs ys : List ℕ)
    → IsString m (s1 + i) xs
    → IsString m (s2 + i) ys
    → length xs ≡ length ys
    → (strcomp_loop (length xs) m s1 s2 i == 0) ≡ same_text xs ys
unfolding strcomp_loop
strcomp_loop-same_text m s1 s2 i [] [] h k e = refl
strcomp_loop-same_text m s1 s2 i [] (y ∷ ys) h k e = absurd (omega arith)
strcomp_loop-same_text m s1 s2 i (x ∷ xs) [] h k e = absurd (omega arith)
strcomp_loop-same_text m s1 s2 i (x ∷ xs) (y ∷ ys) h k e =
    let zero_iff = char_diff-zero x y h.bytes.0.1 k.bytes.0.1 in
    elim (Bool-cases (x == y)) [
      | inl same ↦
          rw (h.held.0, k.held.0, zero_iff, same)
            (strcomp_loop-same_text m s1 s2 (suc i) xs ys
              (subst (λ p. IsString m p xs) (omega arith)
                (record { bytes = h.bytes.1; held = h.held.1 }))
              (subst (λ p. IsString m p ys) (omega arith)
                (record { bytes = k.bytes.1; held = k.held.1 }))
              (omega arith))
      | inr differ ↦ rw (h.held.0, k.held.0, zero_iff, differ) (zero_iff ∙ differ)
    ]

-- `strcomp` returns 0 exactly for strings of the same bytes, when both are shorter than the longest
-- string that the shell measures.
pub strcomp-same_text :
    (m : ℕ → ℕ) (s1 s2 : ℕ) (xs ys : List ℕ)
    → IsString m s1 xs
    → IsString m s2 ys
    → length xs < max_str_len
    → length ys < max_str_len
    → (strcomp m s1 s2 == 0) ≡ same_text xs ys
unfolding strcomp rounds
strcomp-same_text m s1 s2 xs ys h k fx fy =
    rw (strlen-length m s1 xs h fx, strlen-length m s2 ys k fy)
      (elim (Bool-cases ((length xs + (2 ^ 32 - length ys)) % 2 ^ 32 == 0)) [
        | inl e ↦
            let same : length xs ≡ length ys = ground (arith, fx, fy) in
            let few : ltb (length xs) (2 ^ 31) ≡ true = ground (arith, fx) in
            rw (e, few)
              (strcomp_loop-same_text m s1 s2 0 xs ys (subst (λ p. IsString m p xs) (omega arith) h)
                (subst (λ p. IsString m p ys) (omega arith) k) same)
        | inr ne ↦
            let differ : length xs ≢ length ys = λ e. ground (arith, fx, fy) in
            rw (ne, same_text-length xs ys differ) ne
      ])
