-- ===== src/Console/Scroll.antt =====
-- What `rollup`, a tab and a backspace do to the screen.
use my_sbuos.Base.{
  ℕ, zero, suc, ◌+◌, ◌-◌, ◌*◌, ◌/◌, ◌%◌, ◌≤◌, ◌<◌, ◌≡◌, refl, ◌∙◌, ◌≢◌, ◌⊎◌, inl, inr, true, false,
  arith, ltb, leb, ◌==◌, if◌then◌else◌, Bool-cases, ltb→lt, ==_iff, update_self, update_other,
}
use my_sbuos.Console.{
  Console, space, cell, put_cell, copy_columns, copy_rows, blank_columns, rollup, blank_line,
  do_newline, write_plain, write_tab, step_back, write_k,
}
use my_sbuos.Console.Cursor.{
  OnScreen, copy_columns_before, copy_rows_outside, blank_columns_outside,
}

copy_columns-cell :
    (n r c x : ℕ) (d : ℕ → ℕ)
    → c ≤ x
    → x < c + n
    → c + n ≤ 80
    → copy_columns n r c d (cell r x) ≡ d (cell (r + 1) x)
unfolding copy_columns
copy_columns-cell zero r c x d lo hi fit = absurd (omega arith)
copy_columns-cell (suc n) r c x d lo hi fit = elim (Bool-cases (x == c)) [
  | inl e ↦
      let here : x ≡ c = (==_iff x c).0 e in
      rw here (
        copy_columns_before n r (c + 1) (cell r c) _ (inl (omega arith))
        ∙ update_self d (cell r c) (d (cell (r + 1) c)))
  | inr e ↦
      let later : x ≢ c = ground arith in
      copy_columns-cell n r (c + 1) x _ (omega arith) (omega arith) (omega arith)
      ∙ update_other d (cell r c) (cell (r + 1) x) (d (cell (r + 1) c)) (omega arith)
]

copy_rows-cell :
    (n r y x : ℕ) (d : ℕ → ℕ)
    → r ≤ y
    → y < r + n
    → x < 80
    → copy_rows n r d (cell y x) ≡ d (cell (y + 1) x)
unfolding copy_rows
copy_rows-cell zero r y x d lo hi fit = absurd (omega arith)
copy_rows-cell (suc n) r y x d lo hi fit = elim (Bool-cases (y == r)) [
  | inl e ↦
      let here : y ≡ r = (==_iff y r).0 e in
      rw here (
        copy_rows_outside n (r + 1) (cell r x) _ (inl (omega arith))
        ∙ copy_columns-cell 80 r 0 x d (omega arith) (omega arith) (omega arith))
  | inr e ↦
      let later : y ≢ r = ground arith in
      copy_rows-cell n (r + 1) y x _ (omega arith) (omega arith) fit
      ∙ copy_columns_before 80 r 0 (cell (y + 1) x) d (inr (omega arith))
]

blank_columns-cell :
    (n c x : ℕ) (d : ℕ → ℕ) → c ≤ x → x < c + n → blank_columns n c d (cell 22 x) ≡ space
unfolding blank_columns
blank_columns-cell zero c x d lo hi = absurd (omega arith)
blank_columns-cell (suc n) c x d lo hi = elim (Bool-cases (x == c)) [
  | inl e ↦
      let here : x ≡ c = (==_iff x c).0 e in
      rw here (
        blank_columns_outside n (c + 1) (cell 22 c) _ (inl (omega arith))
        ∙ update_self d (cell 22 c) space)
  | inr e ↦
      let later : x ≢ c = ground arith in
      blank_columns-cell n (c + 1) x _ (omega arith) (omega arith)
]

-- `rollup` moves the characters of each row one row up, though it copies in place, and leaves the
-- last row blank.
pub rollup-cell :
    (d : ℕ → ℕ) (row col : ℕ)
    → row ≤ 22
    → col < 80
    → rollup d (cell row col) ≡ (if row == 22 then space else d (cell (row + 1) col))
unfolding rollup
rollup-cell d row col hr hc = elim (Bool-cases (row == 22)) [
  | inl e ↦
      let last : row ≡ 22 = (==_iff row 22).0 e in
      rw (e, last) (blank_columns-cell 80 0 col _ (omega arith) (omega arith))
  | inr e ↦
      let above : row < 22 = ground arith in
      rw e (
        blank_columns_outside 80 0 (cell row col) _ (inl (omega arith))
        ∙ copy_rows-cell 22 0 row col d (omega arith) (omega arith) hc)
]

col-write_plain :
    (v : ℕ) (s : Console) → (write_plain v s).col ≡ (if leb 80 (s.col + 1) then 0 else s.col + 1)
unfolding write_plain do_newline
col-write_plain v s = ground arith

-- A tab moves the cursor to the next column that is a multiple of four, round to column 0, and
-- leaves it where it is if it is at one; the rounds of the model are all that the loop makes.
pub col-write_k_tab : (s : Console) → OnScreen s → (write_k 9 s).col ≡ (s.col + 3) / 4 * 4 % 80
unfolding write_k write_tab
col-write_k_tab s o =
    let s' = write_plain space s in
    let s'' = write_plain space s' in
    ground (
      arith,
      col-write_plain space s,
      col-write_plain space s',
      col-write_plain space s'',
      col-write_plain space (write_plain space s''),
    )

write_plain_next :
    (v : ℕ) (s : Console)
    → s.col < 79
    → write_plain v s
      ≡ record s { col = s.col + 1; display = put_cell s.display (cell s.row s.col) v }
unfolding write_plain
write_plain_next v s h = let stays : leb 80 (s.col + 1) ≡ false = ground arith in rw stays

write_plain_wrap :
    (v : ℕ) (s : Console)
    → s.col ≡ 79
    → s.row < 22
    → write_plain v s
      ≡ record { row = s.row + 1; col = 0; display = put_cell s.display (cell s.row s.col) v }
unfolding write_plain do_newline blank_line
write_plain_wrap v s e h =
    let wraps : leb 80 (s.col + 1) ≡ true = ground arith in
    let above : ltb 22 (s.row + 1) ≡ false = ground arith in
    let no_rest : 80 - (s.col + 1) ≡ 0 = omega arith in rw (wraps, above, no_rest)

put_cell_at : (d : ℕ → ℕ) (at v : ℕ) → put_cell d at v at ≡ v
put_cell_at d at v = update_other _ (at + 1) at 0 (omega arith) ∙ update_self d at v

-- Stepping back over a character that was just written comes back to its cell.
step_back-write_plain :
    (v : ℕ) (s : Console)
    → s.col < 80
    → (s.row < 22) ⊎ (s.col < 79)
    → step_back (write_plain v s) ≡ record s { display = put_cell s.display (cell s.row s.col) v }
unfolding step_back
step_back-write_plain v s fit room = elim (Bool-cases (ltb s.col 79)) [
  | inl e ↦ let near : s.col < 79 = ltb→lt _ _ e in rw (write_plain_next v s near) (ground arith)
  | inr e ↦
      let last : s.col ≡ 79 = ground arith in
      let above : s.row < 22 = omega arith in rw (write_plain_wrap v s last above) (ground arith)
]

-- Below the last row, or before the last column, a backspace undoes a plain character: the cursor
-- is back at its cell, and the cell is blank.
pub write_k-backspace :
    (v : ℕ) (s : Console)
    → OnScreen s
    → (s.row < 22) ⊎ (s.col < 79)
    → let s' = write_k 8 (write_plain v s) in
      (s'.row ≡ s.row) × (s'.col ≡ s.col) × (s'.display (cell s.row s.col) ≡ space)
unfolding write_k
write_k-backspace v s o room =
    let d = put_cell s.display (cell s.row s.col) v in
    rw
      (
        step_back-write_plain v s o.col_in room,
        step_back-write_plain space (record s { display = d }) o.col_in room,
      )
      (refl, refl, put_cell_at d (cell s.row s.col) space)
