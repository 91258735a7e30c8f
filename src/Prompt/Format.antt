-- ===== src/Prompt/Format.antt =====
-- `get_formatted_prompt` writes the format with its inserts.
use my_sbuos.Base.{
  ℕ, zero, suc, ◌+◌, ◌≤◌, ◌<◌, ◌≡◌, refl, sym, ap, ◌∙◌, ◌⊎◌, inl, inr, none, some, List, [], ◌∷◌,
  ◌++◌, append-nil, arith, ◌==◌, if◌then◌else◌, Bool-cases, length, length-append, update,
  update_other, Holds, Holds-agree, Holds-append_left, subst,
}
use my_sbuos.Shell.{rounds, strlen}
use my_sbuos.Shell.Compare.{strlen-length}
use my_sbuos.Environment.{Environment, Literals, value_of}
use my_sbuos.Prompt.{Buffers, format_with, insert_at, prompt_loop, get_formatted_prompt}
use my_sbuos.Prompt.Fill.{
  Wrote, Holds-put, Holds-snoc, Wrote-put, Wrote-append, rounds_small, copy_format-Wrote,
}
use my_sbuos.Prompt.Expand.{
  Inserts, insert_text, expand, Ready, Ready-agree, format_with-Matches, prompt_loop_plain,
  prompt_loop_insert, prompt_loop_end,
}

module _ (a : Buffers) (size p : ℕ) (xs : List ℕ) (x : Inserts) where
  abbrev inserted : ℕ
  inserted = length x.user + length x.directory + length x.status

  -- the loop from the place `i` of the format on writes `out`
  abbrev Rest : (f i : ℕ) (out done : List ℕ) (m : ℕ → ℕ) → Type 0
  Rest f i out done m =
      (r : ℕ × (ℕ → ℕ)) × (prompt_loop f a p i (length done) m ≡ some r)
      × Wrote a.prompt size done out m r

  -- the loop can go on with `cs` as what is left
  record Going (f i : ℕ) (cs done out : List ℕ) (m : ℕ → ℕ) : Type 0 where
    ready : Ready a size p xs x m
    left : Holds m (p + i) (cs ++ 0 ∷ [])
    len : length xs ≡ i + length cs
    before : Holds m a.prompt done
    fits : length done + length out ≤ size
    fuel : length cs + inserted < f

  measured : (m : ℕ → ℕ) → Ready a size p xs x m → rounds (strlen m p) ≡ length xs
  measured m h =
      rw (strlen-length m p xs h.text.0.0 h.text.0.1) (rounds_small (length xs) h.text.0.1)

  Going-plain :
      (f i c : ℕ) (cs done out : List ℕ) (m : ℕ → ℕ)
      → Going (suc f) i (c ∷ cs) done (c ∷ out) m
      → Going f (suc i) cs (done ++ c ∷ []) out (update m (a.prompt + length done) c)
  Going-plain f i c cs done out m g =
      let b = length done in
      let m' = update m (a.prompt + b) c in
      let snoc : length (done ++ c ∷ []) ≡ suc b = length-append done (c ∷ []) ∙ omega arith in
      let end_ : length (cs ++ 0 ∷ []) ≡ length cs + 1 = length-append cs (0 ∷ []) in
      record {
        ready =
            Ready-agree a size p xs x m m'
              (λ j out_. update_other m (a.prompt + b) j c (λ e. ground (arith, out_, g.fits, e)))
              g.ready;
        left =
            Holds-put a.prompt size b c m (p + suc i) (cs ++ 0 ∷ []) (omega (arith, g.fits))
              (ground (arith, g.ready.text.1, g.len, end_))
              (subst (λ q. Holds m q (cs ++ 0 ∷ [])) (omega arith) g.left.1);
        len = omega (arith, g.len);
        before = Holds-snoc a.prompt c m done g.before;
        fits = omega (arith, snoc, g.fits);
        fuel = omega (arith, g.fuel);
      }

  Rest-plain :
      (f i c : ℕ) (cs done : List ℕ) (m : ℕ → ℕ) (out : List ℕ)
      → Going (suc f) i (c ∷ cs) done (c ∷ out) m
      → insert_at a m (p + i) ≡ none
      → Rest f (suc i) out (done ++ c ∷ []) (update m (a.prompt + length done) c)
      → Rest (suc f) i (c ∷ out) done m
  Rest-plain f i c cs done m out g none_here r =
      let b = length done in
      let m' = update m (a.prompt + b) c in
      let snoc : length (done ++ c ∷ []) ≡ suc b = length-append done (c ∷ []) ∙ omega arith in
      (
        r.0,
        prompt_loop_plain f a p i b (length xs) c m (measured m g.ready) (omega (arith, g.len))
              g.left.0 none_here
            ∙ ap (λ n. prompt_loop f a p (suc i) n m') (sym snoc)
            ∙ r.1,
        Wrote-put a.prompt size c done out m r.0 (omega (arith, g.fits)) r.2,
      )

  insert_at-letter :
      (i c e : ℕ) (m : ℕ → ℕ)
      → m (p + i) ≡ c
      → m (suc (p + i)) ≡ e
      → insert_at a m (p + i) ≡ (if c == 92 then format_with a e else none)
  insert_at-letter i c e m here there = rw (here, there) refl

  no_letter : (c : ℕ) → (if c == 92 then format_with a 0 else none) ≡ none
  no_letter c = elim (Bool-cases (c == 92)) [ inl e ↦ rw e refl | inr e ↦ rw e refl ]

  expand-plain :
      (c e : ℕ) (cs : List ℕ)
      → (if c == 92 then insert_text x e else none) ≡ none
      → expand x (c ∷ e ∷ cs) ≡ c ∷ expand x (e ∷ cs)
  expand-plain c e cs q = rw (expand, q) refl

  expand-insert :
      (c e : ℕ) (cs t : List ℕ)
      → (if c == 92 then insert_text x e else none) ≡ some t
      → expand x (c ∷ e ∷ cs) ≡ t ++ expand x cs
  expand-insert c e cs t q = rw (expand, q) refl

  Going-insert :
      (f i c e : ℕ) (cs done t out : List ℕ) (m : ℕ → ℕ) (r : ℕ × (ℕ → ℕ))
      → Going (suc f) i (c ∷ e ∷ cs) done (t ++ out) m
      → Wrote a.prompt size done t m r
      → Going f (suc (suc i)) cs (done ++ t) out r.1
  Going-insert f i c e cs done t out m r g w =
      let end_ : length (cs ++ 0 ∷ []) ≡ length cs + 1 = length-append cs (0 ∷ []) in
      record {
        ready = Ready-agree a size p xs x m r.1 w.2 g.ready;
        left =
            Holds-agree m r.1 (p + suc (suc i)) (cs ++ 0 ∷ [])
              (λ j low high. w.2 j (ground (arith, g.ready.text.1, g.len, end_, low, high)))
              (subst (λ q. Holds m q (cs ++ 0 ∷ [])) (omega arith) g.left.1.1);
        len = omega (arith, g.len);
        before = w.1;
        fits = omega (arith, g.fits, length-append done t, length-append t out);
        fuel = omega (arith, g.fuel);
      }

  prompt_loop-Rest :
      (f i : ℕ) (cs done : List ℕ) (m : ℕ → ℕ)
      → Going f i cs done (expand x cs) m
      → Rest f i (expand x cs) done m
  prompt_loop-Rest zero i cs done m g = absurd (omega (arith, g.fuel))
  prompt_loop-Rest (suc f) i [] done m g = (
    (length done, m),
    prompt_loop_end f a p i (length done) m (measured m g.ready ∙ omega (arith, g.len)),
    rw (append-nil done) (refl, g.before, λ j out. refl),
  )
  prompt_loop-Rest (suc f) i (c ∷ []) done m g =
      let g' = Going-plain f i c [] done [] m g in
      Rest-plain f i c [] done m [] g (insert_at-letter i c 0 m g.left.0 g.left.1.0 ∙ no_letter c)
        (prompt_loop-Rest f (suc i) [] (done ++ c ∷ []) (update m (a.prompt + length done) c) g')
  prompt_loop-Rest (suc f) i (c ∷ e ∷ cs) done m g =
      elim (format_with-Matches a size p xs x m c e g.ready) [
        | inl h ↦
            let eq = expand-plain c e cs h.1 in
            let g₁ = subst (λ o. Going (suc f) i (c ∷ e ∷ cs) done o m) eq g in
            subst (λ o. Rest (suc f) i o done m) (sym eq)
              (Rest-plain f i c (e ∷ cs) done m (expand x (e ∷ cs)) g₁
                (insert_at-letter i c e m g.left.0 g.left.1.0 ∙ h.0)
                (prompt_loop-Rest f (suc i) (e ∷ cs) (done ++ c ∷ [])
                  (update m (a.prompt + length done) c)
                  (Going-plain f i c (e ∷ cs) done (expand x (e ∷ cs)) m g₁)))
        | inr h ↦
            let t = h.1 in
            let eq = expand-insert c e cs t h.3 in
            let g₁ = subst (λ o. Going (suc f) i (c ∷ e ∷ cs) done o m) eq g in
            let copied =
              copy_format-Wrote f a size h.0 0 t t done m h.4.0 h.4.1
                (subst (λ q. Holds m q t) (omega arith)
                  (Holds-append_left m h.0 t (0 ∷ []) h.4.0.0.held))
                (omega arith) g.before (omega (arith, g₁.fits, length-append t (expand x cs)))
                (omega (arith, g.fuel, h.5)) in
            let r =
              prompt_loop-Rest f (suc (suc i)) cs (done ++ t) copied.0.1
                (Going-insert f i c e cs done t (expand x cs) m copied.0 g₁ copied.2) in
            subst (λ o. Rest (suc f) i o done m) (sym eq)
              (
                r.0,
                prompt_loop_insert f a p i (length done) (length xs) h.0 m copied.0
                      (measured m g.ready) (omega (arith, g.len))
                      (insert_at-letter i c e m g.left.0 g.left.1.0 ∙ h.2) copied.1
                    ∙ ap (λ n. prompt_loop f a p (suc (suc i)) n copied.0.1) copied.2.0
                    ∙ r.1,
                Wrote-append a.prompt size done t (expand x cs) m copied.0 r.0 copied.2 r.2,
              )
      ]

-- With PS1 at `p` as a format, and the format, the user's name, the directory and the status clear of the
-- prompt's buffer, which is large enough, `get_formatted_prompt` puts the format with its inserts
-- replaced and a zero into the buffer, and changes no other byte.
pub get_formatted_prompt-expand :
    (f : ℕ) (t : Literals) (a : Buffers) (size p : ℕ) (xs : List ℕ) (x : Inserts) (s : Environment)
    → value_of f t.ps1 s ≡ some p
    → Ready a size p xs x s.memory
    → length (expand x xs) < size
    → length xs + length x.user + length x.directory + length x.status < f
    → (m' : ℕ → ℕ) × (get_formatted_prompt f t a s ≡ some (record s { memory = m' }))
      × Holds m' a.prompt (expand x xs ++ 0 ∷ [])
      × ((j : ℕ) → (j < a.prompt) ⊎ (a.prompt + size ≤ j) → m' j ≡ s.memory j)
unfolding get_formatted_prompt
get_formatted_prompt-expand f t a size p xs x s found ready fits fuel =
    let r = prompt_loop-Rest a size p xs x f 0 xs [] s.memory (record {
      ready = ready;
      left = subst (λ q. Holds s.memory q (xs ++ 0 ∷ [])) (omega arith) ready.text.0.0.held;
      len = omega arith;
      before = tt;
      fits = omega (arith, fits);
      fuel = omega (arith, fuel);
    }) in
    let out = expand x xs in
    (
      update r.0.1 (a.prompt + r.0.0) 0,
      rw (found, r.1) refl,
      rw r.2.0 (Holds-snoc a.prompt 0 r.0.1 out r.2.1),
      λ j clear.
          update_other r.0.1 (a.prompt + r.0.0) j 0 (λ e. ground (arith, clear, fits, r.2.0, e))
          ∙ r.2.2 j clear,
    )
