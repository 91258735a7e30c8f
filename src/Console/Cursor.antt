-- ===== src/Console/Cursor.antt =====
-- The cursor stays on the scrolling rows, and nothing is written outside them.
use my_sbuos.Base.{
  ℕ, zero, suc, ◌+◌, ◌-◌, ◌*◌, ◌%◌, ◌≤◌, ◌<◌, ◌≡◌, refl, ap, ◌∙◌, ◌⊎◌, inl, inr, arith, ltb, leb,
  Bool-cases, update_other,
}
use my_sbuos.Console.{
  Console, space, cell, put_cell, copy_columns, copy_rows, blank_columns, rollup, blank_line,
  do_newline, write_plain, write_tab, step_back, write_k,
}

pub record OnScreen (s : Console) : Type 0 where
  pub row_in : s.row ≤ 22
  pub col_in : s.col < 80

do_newline-OnScreen : (s : Console) → s.row ≤ 22 → OnScreen (do_newline s)
unfolding do_newline
do_newline-OnScreen s h = ground arith

pub write_plain-OnScreen : (v : ℕ) (s : Console) → OnScreen s → OnScreen (write_plain v s)
unfolding write_plain
write_plain-OnScreen v s h = elim (Bool-cases (leb 80 (s.col + 1))) [
  | inl e ↦ rw e (do_newline-OnScreen _ h.row_in)
  | inr e ↦ rw e (ground arith)
]

write_tab-OnScreen : (n i : ℕ) (s : Console) → OnScreen s → OnScreen (write_tab n i s)
unfolding write_tab
write_tab-OnScreen zero i s h = h
write_tab-OnScreen (suc n) i s h = elim (Bool-cases (ltb i (s.col % 4))) [
  | inl e ↦
      rw e (write_tab-OnScreen n (i + 1) (write_plain space s) (write_plain-OnScreen space s h))
  | inr e ↦ rw e h
]

step_back-OnScreen : (s : Console) → OnScreen s → OnScreen (step_back s)
unfolding step_back
step_back-OnScreen s h = ground arith

-- Whatever character is written, the cursor stays in the 23 scrolling rows of 80 columns.
pub write_k-OnScreen : (v : ℕ) (s : Console) → OnScreen s → OnScreen (write_k v s)
unfolding write_k
write_k-OnScreen v s h = ground (
  arith,
  do_newline-OnScreen s h.row_in,
  write_tab-OnScreen 4 0 s h,
  write_plain-OnScreen v s h,
  step_back-OnScreen _ (write_plain-OnScreen space _ (step_back-OnScreen s h)),
)

-- the first byte behind the scrolling rows
abbrev pub screen_end : ℕ
screen_end = 3680

abbrev SameOutside : (ℕ → ℕ) → (ℕ → ℕ) → Type 0
SameOutside d d' = (j : ℕ) → screen_end ≤ j → d' j ≡ d j

pub copy_columns_before :
    (n r c j : ℕ) (d : ℕ → ℕ) → (j < cell r c) ⊎ (cell r (c + n) ≤ j) → copy_columns n r c d j ≡ d j
unfolding copy_columns
copy_columns_before zero r c j d out = refl
copy_columns_before (suc n) r c j d out =
    copy_columns_before n r (c + 1) j _ (omega arith)
    ∙ update_other d (cell r c) j (d (cell (r + 1) c)) (omega arith)

pub copy_rows_outside :
    (n r j : ℕ) (d : ℕ → ℕ) → (j < 160 * r) ⊎ (160 * (r + n) ≤ j) → copy_rows n r d j ≡ d j
unfolding copy_rows
copy_rows_outside zero r j d out = refl
copy_rows_outside (suc n) r j d out =
    copy_rows_outside n (r + 1) j _ (omega arith) ∙ copy_columns_before 80 r 0 j d (omega arith)

pub blank_columns_outside :
    (n c j : ℕ) (d : ℕ → ℕ) → (j < cell 22 c) ⊎ (cell 22 (c + n) ≤ j) → blank_columns n c d j ≡ d j
unfolding blank_columns
blank_columns_outside zero c j d out = refl
blank_columns_outside (suc n) c j d out =
    blank_columns_outside n (c + 1) j _ (omega arith)
    ∙ update_other d (cell 22 c) j space (omega arith)

rollup_outside : (d : ℕ → ℕ) → SameOutside d (rollup d)
unfolding rollup
rollup_outside d j h =
    blank_columns_outside 80 0 j _ (inr (omega arith))
    ∙ copy_rows_outside 22 0 j d (inr (omega arith))

put_cell_outside :
    (d : ℕ → ℕ) (r c v : ℕ) → r ≤ 22 → c < 80 → SameOutside d (put_cell d (cell r c) v)
put_cell_outside d r c v hr hc j h =
    update_other _ (cell r c + 1) j 0 (omega arith) ∙ update_other d (cell r c) j v (omega arith)

blank_line_outside :
    (n r c : ℕ) (d : ℕ → ℕ) → r ≤ 22 → c + n ≤ 80 → SameOutside d (blank_line n r c d)
unfolding blank_line
blank_line_outside zero r c d hr hc j h = refl
blank_line_outside (suc n) r c d hr hc j h =
    blank_line_outside n r (c + 1) _ hr (omega arith) j h
    ∙ put_cell_outside d r c space hr (omega arith) j h

-- `while(col<80)`: the cursor may stand behind the last column.
do_newline_outside :
    (s : Console) → s.row ≤ 22 → s.col ≤ 80 → SameOutside s.display (do_newline s).display
unfolding do_newline
do_newline_outside s hr hc j h = elim (Bool-cases (ltb 22 (s.row + 1))) [
  | inl e ↦ rw e (
      rollup_outside _ j h
      ∙ blank_line_outside (80 - s.col) s.row s.col s.display hr (omega arith) j h)
  | inr e ↦ rw e (blank_line_outside (80 - s.col) s.row s.col s.display hr (omega arith) j h)
]

write_plain_outside :
    (v : ℕ) (s : Console) → OnScreen s → SameOutside s.display (write_plain v s).display
unfolding write_plain
write_plain_outside v s o j h = elim (Bool-cases (leb 80 (s.col + 1))) [
  | inl e ↦ rw e (
      do_newline_outside _ o.row_in (omega (arith, o.col_in)) j h
      ∙ put_cell_outside s.display s.row s.col v o.row_in o.col_in j h)
  | inr e ↦ rw e (put_cell_outside s.display s.row s.col v o.row_in o.col_in j h)
]

write_tab_outside :
    (n i : ℕ) (s : Console) → OnScreen s → SameOutside s.display (write_tab n i s).display
unfolding write_tab
write_tab_outside zero i s o j h = refl
write_tab_outside (suc n) i s o j h = elim (Bool-cases (ltb i (s.col % 4))) [
  | inl e ↦ rw e (
      write_tab_outside n (i + 1) (write_plain space s) (write_plain-OnScreen space s o) j h
      ∙ write_plain_outside space s o j h)
  | inr e ↦ rw e
]

display-step_back : (s : Console) → (step_back s).display ≡ s.display
unfolding step_back
display-step_back s = ground arith

-- Whatever character is written, no byte behind the 23 scrolling rows changes: the status line of
-- row 23 with the clock and the pressed key stays.
pub write_k_outside :
    (v : ℕ) (s : Console) (j : ℕ)
    → OnScreen s
    → screen_end ≤ j
    → (write_k v s).display j ≡ s.display j
unfolding write_k
write_k_outside v s j o h = ground (
  arith,
  do_newline_outside s o.row_in (omega (arith, o.col_in)) j h,
  write_tab_outside 4 0 s o j h,
  write_plain_outside v s o j h,
  back,
)
  where
    back : (step_back (write_plain space (step_back s))).display j ≡ s.display j
    back =
        ap (λ (d : ℕ → ℕ). d j) (display-step_back (write_plain space (step_back s)))
        ∙ write_plain_outside space (step_back s) (step_back-OnScreen s o) j h
        ∙ ap (λ (d : ℕ → ℕ). d j) (display-step_back s)
