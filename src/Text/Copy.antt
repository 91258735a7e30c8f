-- ===== src/Text/Copy.antt =====
-- `kstrcpy` and `kstrcat` between places that do not overlap.
use my_sbuos.Base.{
  ℕ, zero, suc, ◌+◌, ◌≤◌, ◌<◌, ◌≡◌, ap, ◌∙◌, ◌⊎◌, inl, false, some, List, [], ◌∷◌, ◌++◌, arith, leb,
  ◌==◌, ne→==, length, length-append, update, update_self, update_other, Holds, Holds-agree, subst,
}
use my_sbuos.Text.{kstrcpy_loop, kstrcpy}
use my_sbuos.Text.Strings.{IsString}

-- The `n` bytes from `p` on and the `k` from `q` on have no place in common.
abbrev pub Apart : (p n q k : ℕ) → Type 0
Apart p n q k = (p + n ≤ q) ⊎ (q + k ≤ p)

-- The memory after a copy: the string stands at `dest`, and no other place has changed.
pub record Copied (dest : ℕ) (xs : List ℕ) (m m' : ℕ → ℕ) : Type 0 where
  pub string : IsString m' dest xs
  pub others : (j : ℕ) → (j < dest) ⊎ (dest + length xs < j) → m' j ≡ m j

kstrcpy_loop-Copied :
    (f dest src size i : ℕ) (xs : List ℕ) (m : ℕ → ℕ)
    → IsString m (src + i) xs
    → Apart (dest + i) (suc (length xs)) (src + i) (suc (length xs))
    → i + length xs ≤ size
    → length xs < f
    → (m' : ℕ → ℕ) × (kstrcpy_loop f dest src size i m ≡ some (i + length xs, m'))
      × Copied (dest + i) xs m m'
unfolding kstrcpy_loop
kstrcpy_loop-Copied zero dest src size i xs m h apart fits fuel = absurd (omega arith)
kstrcpy_loop-Copied (suc f) dest src size i [] m h apart fits fuel = (
  update m (dest + i) 0,
  rw h.held.0 (ap (λ (k : ℕ). some (k, update m (dest + i) 0)) (omega arith)),
  record {
    string = record { bytes = tt; held = (update_self m (dest + i) 0, tt) };
    others = λ j o. update_other m (dest + i) j 0 (omega arith);
  },
)
kstrcpy_loop-Copied (suc f) dest src size i (x ∷ xs) m h apart fits fuel =
    let more : (x == 0) ≡ false = ne→== x 0 h.bytes.0.0 in
    let room : leb size i ≡ false = ground arith in
    let m1 = update m (dest + i) x in
    let h1 : IsString m1 (src + suc i) xs =
      subst (λ p. IsString m1 p xs) (omega arith)
        (record {
          bytes = h.bytes.1;
          held =
              Holds-agree m m1 (suc (src + i)) (xs ++ 0 ∷ [])
                (λ j a b. update_other m (dest + i) j x (omega (arith, length-append xs (0 ∷ []))))
                h.held.1;
        }) in
    let r =
      kstrcpy_loop-Copied f dest src size (suc i) xs m1 h1 (omega arith) (omega arith)
        (omega arith) in
    (
      r.0,
      rw (h.held.0, more, room) (r.1 ∙ ap (λ (k : ℕ). some (k, r.0)) (omega arith)),
      record {
        string = record {
          bytes = (h.bytes.0, r.2.string.bytes);
          held = (
            r.2.others (dest + i) (inl (omega arith)) ∙ update_self m (dest + i) x,
            subst (λ p. Holds r.0 p (xs ++ 0 ∷ [])) (omega arith) r.2.string.held,
          );
        };
        others = λ j o. r.2.others j (omega arith) ∙ update_other m (dest + i) j x (omega arith);
      },
    )

-- When the string has at most `size` bytes and the two places do not overlap, `kstrcpy` copies it
-- with its zero, returns its length and writes nothing else. That takes up to `size + 1` places.
pub kstrcpy-Copied :
    (f dest src size : ℕ) (xs : List ℕ) (m : ℕ → ℕ)
    → IsString m src xs
    → Apart dest (suc (length xs)) src (suc (length xs))
    → length xs ≤ size
    → length xs < f
    → (m' : ℕ → ℕ) × (kstrcpy f dest src size m ≡ some (length xs, m')) × Copied dest xs m m'
unfolding kstrcpy
kstrcpy-Copied f dest src size xs m h apart fits fuel =
    let r =
      kstrcpy_loop-Copied f dest src size 0 xs m (subst (λ p. IsString m p xs) (omega arith) h)
        (omega arith) (omega arith) fuel in
    (
      r.0,
      r.1 ∙ ap (λ (k : ℕ). some (k, r.0)) (omega arith),
      subst (λ p. Copied p xs m r.0) (omega arith) r.2,
    )
