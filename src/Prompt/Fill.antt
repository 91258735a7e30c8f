-- ===== src/Prompt/Fill.antt =====
-- `prompt` filled from its start, and the copying of one text into it.
use my_sbuos.Base.{
  ℕ, zero, suc, ◌+◌, ◌^◌, ◌≤◌, ◌<◌, ◌≡◌, refl, sym, ap, ◌∙◌, ◌⊎◌, true, false, some, List, [], ◌∷◌,
  ◌++◌, append-nil, append_assoc, arith, ltb, length, length-append, update, update_self,
  update_other, Holds, Holds-agree, Holds-append, subst,
}
use my_sbuos.Shell.{max_str_len, rounds, strlen}
use my_sbuos.Shell.Compare.{strlen-length}
use my_sbuos.Environment.Find.{Text}
use my_sbuos.Prompt.{Buffers, copy_format}

-- A text with its zero lies before the `size` bytes from `w` on, or behind them.
abbrev pub Clear : (w size p : ℕ) → List ℕ → Type 0
Clear w size p xs = (p + length xs < w) ⊎ (w + size ≤ p)

pub Holds-put :
    (w size b v : ℕ) (m : ℕ → ℕ) (p : ℕ) (xs : List ℕ)
    → b < size
    → (p + length xs ≤ w) ⊎ (w + size ≤ p)
    → Holds m p xs
    → Holds (update m (w + b) v) p xs
Holds-put w size b v m p xs fits clear h =
    Holds-agree m (update m (w + b) v) p xs
      (λ j low high. update_other m (w + b) j v (λ e. ground (arith, fits, clear, low, high, e))) h

pub Text-put :
    (w size b v : ℕ) (m : ℕ → ℕ) (p : ℕ) (xs : List ℕ)
    → b < size
    → Clear w size p xs
    → Text m p xs
    → Text (update m (w + b) v) p xs
Text-put w size b v m p xs fits clear h =
    let len : length (xs ++ 0 ∷ []) ≡ length xs + 1 = length-append xs (0 ∷ []) in
    (
      record {
        bytes = h.0.bytes;
        held = Holds-put w size b v m p (xs ++ 0 ∷ []) fits (ground (arith, len, clear)) h.0.held;
      },
      h.1,
    )

-- The bytes written so far, with one more.
pub Holds-snoc :
    (w v : ℕ) (m : ℕ → ℕ) (done : List ℕ)
    → Holds m w done
    → Holds (update m (w + length done) v) w (done ++ v ∷ [])
Holds-snoc w v m done h =
    Holds-append (update m (w + length done) v) w done (v ∷ [])
      (Holds-agree m (update m (w + length done) v) w done
        (λ j low high. update_other m (w + length done) j v (λ e. omega (arith, high, e))) h)
      (update_self m (w + length done) v, tt)

-- What a loop has made of the memory: `out` behind the bytes written so far, the rest unchanged.
abbrev pub Wrote : (w size : ℕ) (done out : List ℕ) (m : ℕ → ℕ) (r : ℕ × (ℕ → ℕ)) → Type 0
Wrote w size done out m r =
    (r.0 ≡ length (done ++ out))
    × Holds r.1 w (done ++ out)
    × ((j : ℕ) → (j < w) ⊎ (w + size ≤ j) → r.1 j ≡ m j)

pub Wrote-put :
    (w size v : ℕ) (done out : List ℕ) (m : ℕ → ℕ) (r : ℕ × (ℕ → ℕ))
    → length done < size
    → Wrote w size (done ++ v ∷ []) out (update m (w + length done) v) r
    → Wrote w size done (v ∷ out) m r
Wrote-put w size v done out m r fits h =
    let same : (done ++ v ∷ []) ++ out ≡ done ++ v ∷ out = append_assoc done (v ∷ []) out in
    (
      subst (λ l. r.0 ≡ length l) same h.0,
      subst (λ l. Holds r.1 w l) same h.1,
      λ j out_.
          h.2 j out_ ∙ update_other m (w + length done) j v (λ e. ground (arith, out_, fits, e)),
    )

pub Wrote-append :
    (w size : ℕ) (done xs ys : List ℕ) (m : ℕ → ℕ) (r q : ℕ × (ℕ → ℕ))
    → Wrote w size done xs m r
    → Wrote w size (done ++ xs) ys r.1 q
    → Wrote w size done (xs ++ ys) m q
Wrote-append w size done xs ys m r q h k =
    let same : (done ++ xs) ++ ys ≡ done ++ (xs ++ ys) = append_assoc done xs ys in
    (
      subst (λ l. q.0 ≡ length l) same k.0,
      subst (λ l. Holds q.1 w l) same k.1,
      λ j out. k.2 j out ∙ h.2 j out,
    )

pub rounds_small : (n : ℕ) → n < max_str_len → rounds n ≡ n
unfolding rounds
rounds_small n h = let small : ltb n (2 ^ 31) ≡ true = ground (arith, h) in rw small refl

copy_format_step :
    (f : ℕ) (a : Buffers) (p i b n z : ℕ) (m : ℕ → ℕ)
    → rounds (strlen m p) ≡ n
    → i < n
    → m (p + i) ≡ z
    → copy_format (suc f) a p i b m ≡ copy_format f a p (suc i) (suc b) (update m (a.prompt + b) z)
unfolding copy_format
copy_format_step f a p i b n z m l lt here =
    let more : ltb i n ≡ true = ground (arith, lt) in rw (l, more, here) refl

pub copy_format-Wrote :
    (f : ℕ) (a : Buffers) (size p i : ℕ) (xs zs done : List ℕ) (m : ℕ → ℕ)
    → Text m p xs
    → Clear a.prompt size p xs
    → Holds m (p + i) zs
    → length xs ≡ i + length zs
    → Holds m a.prompt done
    → length done + length zs ≤ size
    → length zs < f
    → (r : ℕ × (ℕ → ℕ)) × (copy_format f a p i (length done) m ≡ some r)
      × Wrote a.prompt size done zs m r
unfolding copy_format
copy_format-Wrote zero a size p i xs zs done m text clear h len before fits fuel =
    absurd (omega (arith, fuel))
copy_format-Wrote (suc f) a size p i xs [] done m text clear h len before fits fuel =
    let l : rounds (strlen m p) ≡ length xs =
      rw (strlen-length m p xs text.0 text.1) (rounds_small (length xs) text.1) in
    let over : ltb i (length xs) ≡ false = ground (arith, len) in
    ((length done, m), rw (l, over) refl, rw (append-nil done) (refl, before, λ j out. refl))
copy_format-Wrote (suc f) a size p i xs (z ∷ zs) done m text clear h len before fits fuel =
    let l : rounds (strlen m p) ≡ length xs =
      rw (strlen-length m p xs text.0 text.1) (rounds_small (length xs) text.1) in
    let b = length done in
    let m' = update m (a.prompt + b) z in
    let snoc : length (done ++ z ∷ []) ≡ suc b = length-append done (z ∷ []) ∙ omega arith in
    let r =
      copy_format-Wrote f a size p (suc i) xs zs (done ++ z ∷ []) m'
        (Text-put a.prompt size b z m p xs (omega (arith, fits)) clear text) clear
        (Holds-put a.prompt size b z m (p + suc i) zs (omega (arith, fits))
          (ground (arith, clear, len)) (subst (λ q. Holds m q zs) (omega arith) h.1))
        (omega (arith, len)) (Holds-snoc a.prompt z m done before) (omega (arith, snoc, fits))
        (omega (arith, fuel)) in
    (
      r.0,
      copy_format_step f a p i b (length xs) z m l (omega (arith, len)) h.0
          ∙ ap (λ n. copy_format f a p (suc i) n m') (sym snoc)
          ∙ r.1,
      Wrote-put a.prompt size z done zs m r.0 (omega (arith, fits)) r.2,
    )
