-- ===== src/Stdin/Copy.antt =====
-- `copy_input` hands a pending line over.
use my_sbuos.Base.{
  ℕ, zero, suc, ◌+◌, ◌-◌, ◌%◌, ◌^◌, ◌<◌, ◌≡◌, refl, sym, ap, ◌∙◌, ◌≢◌, ◌⊎◌, inl, inr, false, Option,
  some, List, [], ◌∷◌, ◌++◌, arith, ◌==◌, ne→==, length, All, update, update_self, Holds,
}
use my_sbuos.Base.Ring.{window, length-window, window-cons}
use my_sbuos.Stdin.{stdin_buffer_size, newline, ctrl_d, next_point, Stdin, copy_loop, copy_input}
use my_sbuos.Stdin.Ring.{pending, pending_count, InBuffer}

-- The first pending character stands at `start_point`.
pending-pop :
    (s : Stdin) (c : ℕ) (cs : List ℕ)
    → InBuffer s
    → pending s ≡ c ∷ cs
    → let s' : Stdin = record s { start_point = next_point s.start_point } in
      (s.buffer s.start_point ≡ c) × (pending s' ≡ cs) × InBuffer s'
pending-pop s c cs v e =
    let s' : Stdin = record s { start_point = next_point s.start_point } in
    let more : 0 < pending_count s = omega (
      arith,
      length-window stdin_buffer_size s.buffer s.start_point (pending_count s),
      ap length e,
    ) in
    let one_less : pending_count s ≡ suc (pending_count s') = ground arith in
    let same_start : (s.start_point + 1) % stdin_buffer_size ≡ next_point s.start_point =
      ground arith in
    let split =
      sym (
        ap (window stdin_buffer_size s.buffer s.start_point) one_less
        ∙ window-cons stdin_buffer_size s.buffer s.start_point (pending_count s') v.start_in
        ∙ ap (λ h. s.buffer s.start_point ∷ window stdin_buffer_size s.buffer h (pending_count s'))
            same_start)
      ∙ e in
    (cc split, cc split, record { start_in = ground arith; end_in = v.end_in })

abbrev pub NoNewline : List ℕ → Type 0
NoNewline cs = All (λ c. c ≢ newline) cs

-- The caller's memory and the state when `line` has been handed over to the place `i` on.
pub record Copied (i : ℕ) (line rest : List ℕ) (inputs : ℕ) (out : ℕ → ℕ)
    (r : Option (ℕ × (ℕ → ℕ) × Stdin)) : Type 0 where
  pub mem : ℕ → ℕ
  pub state : Stdin
  pub count : ℕ
  pub result : r ≡ some (count, mem, state)
  pub count_is : count ≡ i + length line + 1
  pub holds : Holds mem i (line ++ newline ∷ 0 ∷ [])
  pub others : (j : ℕ) → (j < i) ⊎ (i + length line + 1 < j) → mem j ≡ out j
  pub in_buffer : InBuffer state
  pub left : pending state ≡ rest
  pub counted : state.input_count ≡ (inputs + (2 ^ 32 - 1)) % 2 ^ 32

copy_loop-Copied :
    (f size i : ℕ) (out : ℕ → ℕ) (s : Stdin) (line rest : List ℕ)
    → InBuffer s
    → pending s ≡ line ++ newline ∷ rest
    → NoNewline line
    → i + length line < size
    → size < 2 ^ 31
    → length line < f
    → Copied i line rest s.input_count out (copy_loop f size i out s)
unfolding copy_loop update
copy_loop-Copied zero size i out s line rest v p n fits small fuel = absurd (omega arith)
copy_loop-Copied (suc f) size i out s [] rest v p n fits small fuel =
    let pop = pending-pop s newline rest v p in
    rw (pop.0, copy_loop)
      (record {
        mem = update (update out i newline) (suc i) 0;
        state = record s {
          start_point = next_point s.start_point;
          input_count = (s.input_count + (2 ^ 32 - 1)) % 2 ^ 32;
        };
        count = (i + 1) % 2 ^ 32;
        result = refl;
        count_is = omega arith;
        holds = (ground arith, (ground arith, tt));
        others = λ j o. elim o [ inl a ↦ ground arith | inr b ↦ ground arith ];
        in_buffer = record { start_in = pop.2.start_in; end_in = pop.2.end_in };
        left = pop.1;
        counted = refl;
      })
copy_loop-Copied (suc f) size i out s (c ∷ line) rest v p n fits small fuel =
    let pop = pending-pop s c (line ++ newline ∷ rest) v p in
    let go : (c == newline) ≡ false = ne→== _ _ n.0 in
    let room : (i == (size + (2 ^ 32 - 1)) % 2 ^ 32) ≡ false = ground arith in
    let s' : Stdin = record s { start_point = next_point s.start_point } in
    let r =
      copy_loop-Copied f size (suc i) (update out i c) s' line rest pop.2 pop.1 n.1 (omega arith)
        small (omega arith) in
    rw (pop.0, go, room)
      (record {
        mem = r.mem;
        state = r.state;
        count = r.count;
        result = r.result;
        count_is = omega (arith, r.count_is);
        holds = (r.others i (inl (omega arith)) ∙ update_self out i c, r.holds);
        others = λ j o. elim o [
          | inl a ↦ r.others j (inl (omega arith)) ∙ ground arith
          | inr b ↦ r.others j (inr (omega arith)) ∙ ground arith
        ];
        in_buffer = r.in_buffer;
        left = r.left;
        counted = r.counted;
      })

-- When a whole line is pending, shorter than `size` and not opened by control-D, `copy_input` ends
-- and returns its length with the newline. It writes the line, the newline and a zero to the
-- caller's buffer and nothing else (so a line of `size - 1` characters takes `size + 1` places),
-- and takes the line from the pending characters and one from the count.
pub copy_input-Copied :
    (fuel size : ℕ) (out : ℕ → ℕ) (s : Stdin) (line rest : List ℕ)
    → InBuffer s
    → pending s ≡ line ++ newline ∷ rest
    → NoNewline line
    → s.buffer s.start_point ≢ ctrl_d
    → length line < size
    → size < 2 ^ 31
    → length line < fuel
    → Copied 0 line rest s.input_count out (copy_input fuel size out s)
unfolding copy_input
copy_input-Copied fuel size out s line rest v p n no_end fits small enough =
    let text : (s.buffer s.start_point == ctrl_d) ≡ false = ne→== _ _ no_end in
    rw text (copy_loop-Copied fuel size 0 out s line rest v p n (omega arith) small enough)

-- A buffer that is too small loses a character: it is taken from the pending ones, and a zero is
-- written over it.
pub copy_input-cut :
    (fuel : ℕ) (out : ℕ → ℕ) (s : Stdin) (c : ℕ) (rest : List ℕ)
    → InBuffer s
    → pending s ≡ c ∷ rest
    → c ≢ newline
    → c ≢ ctrl_d
    → (mem : ℕ → ℕ) × (s' : Stdin) × (copy_input (suc fuel) 1 out s ≡ some (1, mem, s'))
      × (mem 0 ≡ 0)
      × (pending s' ≡ rest)
unfolding copy_input copy_loop update
copy_input-cut fuel out s c rest v p no_line no_end =
    let pop = pending-pop s c rest v p in
    (
      update (update out 0 c) 0 0,
      record s { start_point = next_point s.start_point },
      ground (arith, pop.0),
      ground arith,
      pop.1,
    )
