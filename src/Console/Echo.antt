-- ===== src/Console/Echo.antt =====
-- What `write_k` shows for a character away from the edges of the screen.
use my_sbuos.Base.{
  ℕ, zero, suc, ◌+◌, ◌-◌, ◌≤◌, ◌<◌, ◌≡◌, refl, ◌∙◌, ◌≢◌, ◌⊎◌, inl, inr, false, arith, ◌==◌,
  if◌then◌else◌, Bool-cases, leb, ltb, update, update_self, update_other, ==_iff, ne→==,
}
use my_sbuos.Console.{Console, space, cell, put_cell, blank_line, do_newline, write_plain, write_k}

-- The column behind the last one that the character `c` changes.
abbrev pub last_column : ℕ → Console → ℕ
last_column c s = if c == 10 then 80 else s.col + 1

-- The character `c` stands at the cursor, which moves one column on; a newline blanks the rest of
-- the row and moves the cursor to the next row. Every other byte of the screen stays.
pub record Echoed (c : ℕ) (s s' : Console) : Type 0 where
  pub row : s'.row ≡ (if c == 10 then s.row + 1 else s.row)
  pub col : s'.col ≡ (if c == 10 then 0 else s.col + 1)
  pub shown :
      (i : ℕ)
      → s.col ≤ i
      → i < last_column c s
      → s'.display (cell s.row i) ≡ (if c == 10 then space else c)
  pub same :
      (j : ℕ)
      → (j < cell s.row s.col) ⊎ (cell s.row (last_column c s) ≤ j)
      → s'.display j ≡ s.display j

put_cell_outside : (d : ℕ → ℕ) (at v j : ℕ) → (j < at) ⊎ (at + 2 ≤ j) → put_cell d at v j ≡ d j
put_cell_outside d at v j out =
    update_other (update d at v) (at + 1) j 0 (omega arith) ∙ update_other d at j v (omega arith)

put_cell_at : (d : ℕ → ℕ) (at v : ℕ) → put_cell d at v at ≡ v
put_cell_at d at v = update_other (update d at v) (at + 1) at 0 (omega arith) ∙ update_self d at v

blank_line_outside :
    (n row col j : ℕ) (d : ℕ → ℕ)
    → (j < cell row col) ⊎ (cell row (col + n) ≤ j)
    → blank_line n row col d j ≡ d j
unfolding blank_line
blank_line_outside zero row col j d out = refl
blank_line_outside (suc n) row col j d out =
    blank_line_outside n row (col + 1) j _ (omega arith)
    ∙ put_cell_outside d (cell row col) space j (omega arith)

blank_line-space :
    (n row col i : ℕ) (d : ℕ → ℕ)
    → col ≤ i
    → i < col + n
    → blank_line n row col d (cell row i) ≡ space
unfolding blank_line
blank_line-space zero row col i d from upto = absurd (omega arith)
blank_line-space (suc n) row col i d from upto = elim (Bool-cases (i == col)) [
  | inl e ↦
      let at : i ≡ col = (==_iff i col).0 e in
      rw at (
        blank_line_outside n row (col + 1) (cell row col) _ (inl (omega arith))
        ∙ put_cell_at d (cell row col) space)
  | inr e ↦ blank_line-space n row (col + 1) i _ (ground arith) (omega arith)
]

-- Above the last scrolling row and before the last column, a character other than 0, tab and
-- backspace is shown at the cursor, or begins a new row.
pub write_k-Echoed :
    (c : ℕ) (s : Console)
    → s.row < 22
    → s.col < 79
    → c ≢ 0
    → c ≢ 9
    → c ≢ 8
    → Echoed c s (write_k c s)
unfolding write_k do_newline write_plain
write_k-Echoed c s row_in col_in no_0 no_9 no_8 =
    let not_0 : (c == 0) ≡ false = ne→== _ _ no_0 in
    let not_9 : (c == 9) ≡ false = ne→== _ _ no_9 in
    let not_8 : (c == 8) ≡ false = ne→== _ _ no_8 in
    let stays : leb 80 (s.col + 1) ≡ false = ground arith in
    let scrolls_not : ltb 22 (s.row + 1) ≡ false = ground arith in
    elim (Bool-cases (c == 10)) [
      | inl e ↦
          let ends : last_column c s ≡ 80 = rw e refl in
          rw (not_0, e, scrolls_not)
            (record {
              row = rw e refl;
              col = rw e refl;
              shown = λ i from upto. rw e (
                  blank_line-space (80 - s.col) s.row s.col i s.display from
                    (omega (arith, upto, ends, col_in)));
              same = λ j out.
                  blank_line_outside (80 - s.col) s.row s.col j s.display
                    (omega (arith, out, ends, col_in));
            })
      | inr e ↦
          let ends : last_column c s ≡ s.col + 1 = rw e refl in
          rw (not_0, e, not_9, not_8, stays)
            (record {
              row = rw e refl;
              col = rw e refl;
              shown = λ i from upto.
                  let at : i ≡ s.col = omega (arith, upto, ends, from) in
                  rw (e, at) (put_cell_at s.display (cell s.row s.col) c);
              same = λ j out.
                  put_cell_outside s.display (cell s.row s.col) c j (omega (arith, out, ends));
            })
    ]
