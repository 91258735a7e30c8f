-- ===== src/Text/Strings.antt =====
-- `kstrlen`, `kstrcmp` and `kstrstartswith` on strings in the memory.
use my_sbuos.Base.{
  ℕ, zero, suc, ◌+◌, ◌<◌, ◌≡◌, refl, sym, ap, ◌∙◌, ◌≢◌, inl, inr, Bool, true, false, ◌&&◌, Option,
  some, List, [], ◌∷◌, ◌++◌, arith, ltb, ◌==◌, if◌then◌else◌, Bool-cases, ltb→lt, ne→==, ==_iff,
  length, All, Holds, subst,
}
use my_sbuos.Text.{
  kstrlen_loop, kstrlen, char_to_int, char_diff, kstrcmp_loop, kstrcmp, kstrstartswith_loop,
  kstrstartswith,
}

-- The bytes `xs`, none of them 0, stand at `p` with a 0 behind them.
pub record IsString (m : ℕ → ℕ) (p : ℕ) (xs : List ℕ) : Type 0 where
  pub bytes : All (λ c. (c ≢ 0) × (c < 256)) xs
  pub held : Holds m p (xs ++ 0 ∷ [])

pub IsString-tail :
    {m : ℕ → ℕ} {p x : ℕ} {xs : List ℕ} → IsString m p (x ∷ xs) → IsString m (suc p) xs
IsString-tail h = record { bytes = h.bytes.1; held = h.held.1 }

kstrlen_loop-length :
    (f : ℕ) (m : ℕ → ℕ) (s i : ℕ) (xs : List ℕ)
    → IsString m (s + i) xs
    → length xs < f
    → kstrlen_loop f m s i ≡ some (i + length xs)
unfolding kstrlen_loop
kstrlen_loop-length zero m s i xs h fuel = absurd (omega arith)
kstrlen_loop-length (suc f) m s i [] h fuel = rw h.held.0 (ap some (omega arith))
kstrlen_loop-length (suc f) m s i (x ∷ xs) h fuel =
    let more : (x == 0) ≡ false = ne→== x 0 h.bytes.0.0 in
    rw (h.held.0, more)
      (kstrlen_loop-length f m s (suc i) xs
          (subst (λ p. IsString m p xs) (omega arith) (IsString-tail h)) (omega arith)
        ∙ ap some (omega arith))

-- `kstrlen` returns the number of bytes before the zero.
pub kstrlen-length :
    (f : ℕ) (m : ℕ → ℕ) (s : ℕ) (xs : List ℕ)
    → IsString m s xs
    → length xs < f
    → kstrlen f m s ≡ some (length xs)
unfolding kstrlen
kstrlen-length f m s xs h fuel =
    kstrlen_loop-length f m s 0 xs (subst (λ p. IsString m p xs) (omega arith) h) fuel
    ∙ ap some (omega arith)

abbrev pub same_text : List ℕ → List ℕ → Bool
same_text [] [] = true
same_text [] (y ∷ ys) = false
same_text (x ∷ xs) [] = false
same_text (x ∷ xs) (y ∷ ys) = (x == y) && same_text xs ys

pub char_diff-zero : (a b : ℕ) → a < 256 → b < 256 → (char_diff a b == 0) ≡ (a == b)
unfolding char_diff char_to_int
char_diff-zero a b ha hb = ground arith

-- A result of `kstrcmp`: 0 exactly for equal texts.
abbrev pub Tells : Bool → Option ℕ → Type 0
Tells b o = (r : ℕ) × (o ≡ some r) × ((r == 0) ≡ b)

kstrcmp_loop-Tells :
    (f : ℕ) (m : ℕ → ℕ) (s1 s2 i : ℕ) (xs ys : List ℕ)
    → IsString m (s1 + i) xs
    → IsString m (s2 + i) ys
    → length xs ≡ length ys
    → length xs < f
    → Tells (same_text xs ys) (kstrcmp_loop f m s1 s2 i)
unfolding kstrcmp_loop
kstrcmp_loop-Tells zero m s1 s2 i xs ys h k e fuel = absurd (omega arith)
kstrcmp_loop-Tells (suc f) m s1 s2 i [] [] h k e fuel = (0, rw h.held.0, refl)
kstrcmp_loop-Tells (suc f) m s1 s2 i [] (y ∷ ys) h k e fuel = absurd (omega arith)
kstrcmp_loop-Tells (suc f) m s1 s2 i (x ∷ xs) [] h k e fuel = absurd (omega arith)
kstrcmp_loop-Tells (suc f) m s1 s2 i (x ∷ xs) (y ∷ ys) h k e fuel =
    let more : (x == 0) ≡ false = ne→== x 0 h.bytes.0.0 in
    elim (Bool-cases (x == y)) [
      | inl same ↦
          rw (h.held.0, k.held.0, more, same)
            (kstrcmp_loop-Tells f m s1 s2 (suc i) xs ys
              (subst (λ p. IsString m p xs) (omega arith) (IsString-tail h))
              (subst (λ p. IsString m p ys) (omega arith) (IsString-tail k)) (omega arith)
              (omega arith))
      | inr differ ↦
          rw (h.held.0, k.held.0, more, differ)
            (char_diff x y, refl, char_diff-zero x y h.bytes.0.1 k.bytes.0.1 ∙ differ)
    ]

pub same_text-length : (xs ys : List ℕ) → length xs ≢ length ys → same_text xs ys ≡ false
same_text-length [] [] h = absurd (h refl)
same_text-length [] (y ∷ ys) h = refl
same_text-length (x ∷ xs) [] h = refl
same_text-length (x ∷ xs) (y ∷ ys) h = ground (arith, same_text-length xs ys (λ e. h (ap suc e)))

pub same_text_iff : (xs ys : List ℕ) → same_text xs ys ≡ true → xs ≡ ys
same_text_iff [] [] h = refl
same_text_iff [] (y ∷ ys) h = absurd (cc)
same_text_iff (x ∷ xs) [] h = absurd (cc)
same_text_iff (x ∷ xs) (y ∷ ys) h = ground (arith, same_text_iff xs ys)

-- the zero behind a string, and its bytes
byte_end : (m : ℕ → ℕ) (p : ℕ) (xs : List ℕ) → IsString m p xs → m (p + length xs) ≡ 0
byte_end m p [] h = ap m (omega arith) ∙ h.held.0
byte_end m p (x ∷ xs) h = ap m (omega arith) ∙ byte_end m (suc p) xs (IsString-tail h)

byte_inside :
    (m : ℕ → ℕ) (p i : ℕ) (xs : List ℕ)
    → IsString m p xs
    → i < length xs
    → (0 < m (p + i)) × (m (p + i) < 256)
byte_inside m p i [] h lt = absurd (omega arith)
byte_inside m p zero (x ∷ xs) h lt =
    let here : m (p + 0) ≡ x = ap m (omega arith) ∙ h.held.0 in
    rw here (omega (arith, h.bytes.0.0), h.bytes.0.1)
byte_inside m p (suc i) (x ∷ xs) h lt =
    let there : m (p + suc i) ≡ m (suc p + i) = ap m (omega arith) in
    rw there (byte_inside m (suc p) i xs (IsString-tail h) (omega arith))

char_diff_ne : (a b : ℕ) → a < 256 → b < 256 → a ≢ b → (char_diff a b == 0) ≡ false
char_diff_ne a b ha hb ne = char_diff-zero a b ha hb ∙ ne→== a b ne

-- `kstrcmp` ends, and returns 0 exactly when the two strings have the same bytes.
pub kstrcmp-Tells :
    (f : ℕ) (m : ℕ → ℕ) (s1 s2 : ℕ) (xs ys : List ℕ)
    → IsString m s1 xs
    → IsString m s2 ys
    → length xs < f
    → length ys < f
    → Tells (same_text xs ys) (kstrcmp f m s1 s2)
unfolding kstrcmp
kstrcmp-Tells f m s1 s2 xs ys h k fx fy =
    rw (kstrlen-length f m s1 xs h fx, kstrlen-length f m s2 ys k fy)
      (elim (Bool-cases (length xs == length ys)) [
        | inl e ↦ rw e (
            kstrcmp_loop-Tells f m s1 s2 0 xs ys (subst (λ p. IsString m p xs) (omega arith) h)
              (subst (λ p. IsString m p ys) (omega arith) k) ((==_iff _ _).0 e) fx)
        | inr e ↦
            let ne : length xs ≢ length ys = ground arith in
            rw (e, same_text-length xs ys ne)
              (elim (Bool-cases (ltb (length xs) (length ys))) [
                | inl lt ↦
                    rw (lt, byte_end m s1 xs h)
                      (let b = byte_inside m s2 (length xs) ys k (ltb→lt _ _ lt) in
                        (
                          _,
                          refl,
                          char_diff_ne 0 (m (s2 + length xs)) (omega arith) b.1
                              (omega (arith, b.0)),
                        ))
                | inr ge ↦
                    rw (ge, byte_end m s2 ys k)
                      (let b = byte_inside m s1 (length ys) xs h (ground (arith, ne)) in
                        (
                          _,
                          refl,
                          char_diff_ne (m (s1 + length ys)) 0 b.1 (omega arith)
                              (omega (arith, b.0)),
                        ))
              ])
      ])

abbrev pub starts_with : List ℕ → List ℕ → Bool
starts_with target [] = true
starts_with [] (c ∷ prefix) = false
starts_with (x ∷ target) (c ∷ prefix) = (x == c) && starts_with target prefix

kstrstartswith_loop-starts_with :
    (f : ℕ) (m : ℕ → ℕ) (t p i : ℕ) (target prefix : List ℕ)
    → IsString m (t + i) target
    → IsString m (p + i) prefix
    → length prefix < f
    → kstrstartswith_loop f m t p i ≡ some (if starts_with target prefix then 1 else 0)
unfolding kstrstartswith_loop
kstrstartswith_loop-starts_with zero m t p i target prefix h k fuel = absurd (omega arith)
kstrstartswith_loop-starts_with (suc f) m t p i target [] h k fuel = rw k.held.0
kstrstartswith_loop-starts_with (suc f) m t p i [] (c ∷ prefix) h k fuel =
    let more : (c == 0) ≡ false = ne→== c 0 k.bytes.0.0 in
    let ended : (0 == c) ≡ false = ne→== 0 c (λ z. k.bytes.0.0 (sym z)) in
    rw (k.held.0, h.held.0, more, ended)
kstrstartswith_loop-starts_with (suc f) m t p i (x ∷ target) (c ∷ prefix) h k fuel =
    let more : (c == 0) ≡ false = ne→== c 0 k.bytes.0.0 in
    elim (Bool-cases (x == c)) [
      | inl same ↦
          rw (k.held.0, h.held.0, more, same)
            (kstrstartswith_loop-starts_with f m t p (suc i) target prefix
              (subst (λ q. IsString m q target) (omega arith) (IsString-tail h))
              (subst (λ q. IsString m q prefix) (omega arith) (IsString-tail k)) (omega arith))
      | inr differ ↦ rw (k.held.0, h.held.0, more, differ)
    ]

-- `kstrstartswith` ends, and returns 1 when the target begins with the prefix and 0 otherwise.
pub kstrstartswith-starts_with :
    (f : ℕ) (m : ℕ → ℕ) (t p : ℕ) (target prefix : List ℕ)
    → IsString m t target
    → IsString m p prefix
    → length prefix < f
    → kstrstartswith f m t p ≡ some (if starts_with target prefix then 1 else 0)
unfolding kstrstartswith
kstrstartswith-starts_with f m t p target prefix h k fuel =
    kstrstartswith_loop-starts_with f m t p 0 target prefix
      (subst (λ q. IsString m q target) (omega arith) h)
      (subst (λ q. IsString m q prefix) (omega arith) k) fuel
