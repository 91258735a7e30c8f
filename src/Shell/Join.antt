-- ===== src/Shell/Join.antt =====
-- `strcat` joins two strings.
use my_sbuos.Base.{
  ℕ, zero, suc, ◌+◌, ◌-◌, ◌%◌, ◌^◌, ◌≤◌, ◌<◌, ◌≡◌, refl, sym, ap, ◌∙◌, ◌≢◌, ◌⊎◌, true, false, List,
  [], ◌∷◌, ◌++◌, arith, ltb, ◌==◌, length, length-append, All-append, update, update_self,
  update_other, Holds, Holds-agree, Holds-append, Holds-append_left, subst,
}
use my_sbuos.Text.Strings.{IsString}
use my_sbuos.Text.Copy.{Copied}
use my_sbuos.Exec.Map.{Written}
use my_sbuos.Shell.{max_str_len, rounds, shift, move_loop, strcat_loop, int_ge, strcat}
use my_sbuos.Shell.Compare.{strlen-length}

-- Bytes copied upwards, when no byte is written before it is read.
move_loop-Written :
    (left : ℕ) (s t i : ℕ) (m : ℕ → ℕ) (xs : List ℕ)
    → length xs ≡ left
    → Holds m (s + i) xs
    → (t ≤ s) ⊎ (s + i + left ≤ t)
    → Written (t + i) xs m (move_loop left s t i m)
unfolding move_loop
move_loop-Written zero s t i m [] count text apart = record { held = tt; others = λ j o. refl }
move_loop-Written zero s t i m (x ∷ xs) count text apart = absurd (omega arith)
move_loop-Written (suc n) s t i m [] count text apart = absurd (omega arith)
move_loop-Written (suc n) s t i m (x ∷ xs) count text apart =
    let m1 = update m (t + i) (m (s + i)) in
    let source : s + suc i ≡ suc (s + i) = omega arith in
    let target : t + suc i ≡ suc (t + i) = omega arith in
    let text1 : Holds m1 (s + suc i) xs = rw source (
      Holds-agree m m1 (suc (s + i)) xs
        (λ j a b. update_other m (t + i) j (m (s + i)) (λ e. omega (arith, e, a, b, apart, count)))
        text.1) in
    let r = move_loop-Written n s t (suc i) m1 xs (omega arith) text1 (omega arith) in
    record {
      held = (
        r.others (t + i) (omega arith) ∙ update_self m (t + i) (m (s + i)) ∙ text.0,
        subst (λ p. Holds (move_loop n s t (suc i) m1) p xs) target r.held,
      );
      others = λ j o. r.others j (omega arith) ∙ update_other m (t + i) j (m (s + i)) (omega arith);
    }

-- The loop over the suffix is such a copy.
strcat_loop-move_loop :
    (n suffix buffer pref_l k : ℕ) (m : ℕ → ℕ)
    → pref_l < 2 ^ 31
    → k + n < 2 ^ 31
    → strcat_loop n suffix buffer pref_l (pref_l + k) m ≡ move_loop n suffix (buffer + pref_l) k m
unfolding strcat_loop move_loop shift
strcat_loop-move_loop zero suffix buffer pref_l k m small few = refl
strcat_loop-move_loop (suc n) suffix buffer pref_l k m small few =
    let index : (pref_l + k + (2 ^ 32 - pref_l)) % 2 ^ 32 ≡ k = omega arith in
    let up : ltb k (2 ^ 31) ≡ true = ground (arith, few) in
    let place : buffer + (pref_l + k) ≡ buffer + pref_l + k = omega arith in
    let next : suc (pref_l + k) ≡ pref_l + suc k = omega arith in
    rw (index, up, place, next)
      (strcat_loop-move_loop n suffix buffer pref_l (suc k)
        (update m (buffer + pref_l + k) (m (suffix + k))) small (omega arith))

-- The two copies and the zero behind them.
joined_parts :
    (prefix suffix buffer : ℕ) (m : ℕ → ℕ) (xs ys : List ℕ)
    → IsString m prefix xs
    → IsString m suffix ys
    → (buffer ≤ prefix) ⊎ (prefix + length xs ≤ buffer)
    → (suffix + length ys < buffer) ⊎ (buffer + length xs + length ys < suffix)
    → let m1 = move_loop (length xs) prefix buffer 0 m in
      let m2 = move_loop (length ys) suffix (buffer + length xs) 0 m1 in
      Copied buffer (xs ++ ys) m (update m2 (buffer + (length xs + length ys)) 0)
joined_parts prefix suffix buffer m xs ys h k apart far =
    let lx = length xs in
    let ly = length ys in
    let m1 = move_loop lx prefix buffer 0 m in
    let m2 = move_loop ly suffix (buffer + lx) 0 m1 in
    let m3 = update m2 (buffer + (lx + ly)) 0 in
    let from_start : (p : ℕ) → p + 0 ≡ p = λ p. omega arith in
    let px : Holds m (prefix + 0) xs =
      rw (from_start prefix) (Holds-append_left m prefix xs (0 ∷ []) h.held) in
    let w1 = move_loop-Written lx prefix buffer 0 m xs refl px (omega arith) in
    let py : Holds m1 (suffix + 0) ys = rw (from_start suffix) (
      Holds-agree m m1 suffix ys (λ j a b. w1.others j (omega arith))
        (Holds-append_left m suffix ys (0 ∷ []) k.held)) in
    let w2 = move_loop-Written ly suffix (buffer + lx) 0 m1 ys refl py (omega arith) in
    let len : length (xs ++ ys) ≡ lx + ly = length-append xs ys in
    let last : (j : ℕ) → j ≢ buffer + (lx + ly) → m3 j ≡ m2 j =
      λ j ne. update_other m2 (buffer + (lx + ly)) j 0 ne in
    let first : Holds m1 buffer xs = subst (λ p. Holds m1 p xs) (from_start buffer) w1.held in
    let second : Holds m2 (buffer + lx) ys =
      subst (λ p. Holds m2 p ys) (from_start (buffer + lx)) w2.held in
    let a1 =
      Holds-agree m1 m3 buffer xs
        (λ j a b. last j (λ e. omega (arith, e, b)) ∙ w2.others j (omega arith)) first in
    let a2 =
      Holds-agree m2 m3 (buffer + lx) ys (λ j a b. last j (λ e. omega (arith, e, b))) second in
    let end_ : m3 (buffer + length (xs ++ ys)) ≡ 0 =
      ap (λ n. m3 (buffer + n)) len ∙ update_self m2 (buffer + (lx + ly)) 0 in
    record {
      string = record {
        bytes = All-append (λ c. (c ≢ 0) × (c < 256)) xs ys h.bytes k.bytes;
        held =
            Holds-append m3 buffer (xs ++ ys) (0 ∷ []) (Holds-append m3 buffer xs ys a1 a2)
              (end_, tt);
      };
      others = λ j o.
          last j (λ e. omega (arith, e, o, len))
          ∙ w2.others j (omega (arith, o, len))
          ∙ w1.others j (omega (arith, o, len));
    }

-- `strcat` joins two strings that the shell can measure, when the result fits: it returns 0, the buffer
-- holds the one and then the other, and no other byte is written. The suffix stands apart from the
-- buffer; the prefix does too, or stands at the buffer or behind its start.
pub strcat-Copied :
    (prefix suffix buffer size : ℕ) (m : ℕ → ℕ) (xs ys : List ℕ)
    → IsString m prefix xs
    → IsString m suffix ys
    → length xs < max_str_len
    → length ys < max_str_len
    → length xs + length ys + 1 < size
    → size < 2 ^ 31
    → (buffer ≤ prefix) ⊎ (prefix + length xs ≤ buffer)
    → (suffix + length ys < buffer) ⊎ (buffer + length xs + length ys < suffix)
    → ((strcat prefix suffix buffer size m).0 ≡ 0)
      × Copied buffer (xs ++ ys) m (strcat prefix suffix buffer size m).1
unfolding strcat rounds
strcat-Copied prefix suffix buffer size m xs ys h k fx fy fits small apart far =
    let lx = length xs in
    let ly = length ys in
    let other : (suffix == buffer) ≡ false = ground (arith, far) in
    let whole : (lx + ly) % 2 ^ 32 ≡ lx + ly = omega arith in
    let few : ltb lx (2 ^ 31) ≡ true = ground (arith, fx) in
    let few2 : ltb (lx + ly) (2 ^ 31) ≡ true = ground (arith, fx, fy) in
    let room : int_ge ((lx + ly + 1) % 2 ^ 32) size ≡ false = ground (arith, fits, small) in
    let left : lx + ly - lx ≡ ly = omega arith in
    let start : lx + 0 ≡ lx = omega arith in
    let m1 = move_loop lx prefix buffer 0 m in
    let second : strcat_loop ly suffix buffer lx lx m1 ≡ move_loop ly suffix (buffer + lx) 0 m1 =
      ap (λ n. strcat_loop ly suffix buffer lx n m1) (sym start)
      ∙ strcat_loop-move_loop ly suffix buffer lx 0 m1 (omega arith) (omega arith) in
    rw
      (
        strlen-length m prefix xs h fx,
        strlen-length m suffix ys k fy,
        other,
        whole,
        few,
        few2,
        room,
        left,
        second,
      )
      (refl, joined_parts prefix suffix buffer m xs ys h k apart far)
