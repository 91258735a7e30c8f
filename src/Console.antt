-- ===== src/Console.antt =====
-- sys/unix_helpers.c: the text console. `display` is the memory from `display_mem` on, two bytes to
-- a cell and 160 to a row; rows 0 to 22 scroll and row 23 is the status line.
pub mod Cursor
pub mod Echo
pub mod Scroll
pub mod Numbers
mod Tests
use my_sbuos.Base.{
  ℕ, zero, suc, ◌+◌, ◌-◌, ◌*◌, ◌/◌, ◌%◌, ◌^◌, ◌≤◌, ◌<◌, ◌≡◌, refl, sym, ap, ap₂, ◌∙◌, ◌≢◌, ◌⊎◌, inl,
  inr, Bool, true, false, not, ◌&&◌, ◌||◌, Option, none, some, List, [], ◌∷◌, ◌++◌, map, append-nil,
  append_assoc, arith, ltb, leb, ◌==◌, if◌then◌else◌, Bool-cases, Option-cases, ltb→lt, lt→ltb,
  leb→le, eq→==, ne→==, ==_iff, length, get_or, length-append, All, All-append, NotIn, Distinct,
  NotIn-append, Distinct-snoc, mem, NotIn-of_mem, mem_of_NotIn, mem-append, update, update_self,
  update_other, Holds, Holds-agree, Holds-append, Holds-append_left, Holds-append_right, subst,
}

pub record Console : Type 0 where
  pub row : ℕ
  pub col : ℕ
  pub display : ℕ → ℕ

abbrev pub space : ℕ
space = 32

abbrev pub cell : (row col : ℕ) → ℕ
cell row col = 160 * row + 2 * col

-- `*position = v; position++; *position = 0;`
abbrev pub put_cell : (ℕ → ℕ) → ℕ → ℕ → ℕ → ℕ
put_cell d at v = update (update d at v) (at + 1) 0

-- The loops of `rollup` with `n` rounds left: the columns of one row, the rows, the last row.
pub copy_columns : (n temprow tempcol : ℕ) → (ℕ → ℕ) → ℕ → ℕ
copy_columns zero temprow tempcol d = d
copy_columns (suc n) temprow tempcol d =
    copy_columns n temprow (tempcol + 1)
      (update d (cell temprow tempcol) (d (cell (temprow + 1) tempcol)))

pub copy_rows : (n temprow : ℕ) → (ℕ → ℕ) → ℕ → ℕ
copy_rows zero temprow d = d
copy_rows (suc n) temprow d = copy_rows n (temprow + 1) (copy_columns 80 temprow 0 d)

pub blank_columns : (n tempcol : ℕ) → (ℕ → ℕ) → ℕ → ℕ
blank_columns zero tempcol d = d
blank_columns (suc n) tempcol d = blank_columns n (tempcol + 1) (update d (cell 22 tempcol) space)

pub rollup : (ℕ → ℕ) → ℕ → ℕ
rollup d = blank_columns 80 0 (copy_rows 22 0 d)

-- `while(col<80)` in `do_newline`, with the rounds that are left.
pub blank_line : (n row col : ℕ) → (ℕ → ℕ) → ℕ → ℕ
blank_line zero row col d = d
blank_line (suc n) row col d = blank_line n row (col + 1) (put_cell d (cell row col) space)

pub do_newline : Console → Console
do_newline s =
    let d = blank_line (80 - s.col) s.row s.col s.display in
    if ltb 22 (s.row + 1)
    then record { row = 22; col = 0; display = rollup d }
    else record { row = s.row + 1; col = 0; display = d }

-- `write_k` for a character that is none of `\0`, `\n`, `\t` and `\b`.
pub write_plain : ℕ → Console → Console
write_plain v s =
    let s' = record s { col = s.col + 1; display = put_cell s.display (cell s.row s.col) v } in
    if leb 80 s'.col then do_newline s' else s'

-- `for (i = 0; i < col%4; ++i) write_k(' ');` reads `col` anew in each round. A round either ends a
-- line or leaves one column less to the next multiple of four, so three rounds are enough.
pub write_tab : (n i : ℕ) → Console → Console
write_tab zero i s = s
write_tab (suc n) i s =
    let rest = write_tab n (i + 1) (write_plain space s) in if ltb i (s.col % 4) then rest else s

pub step_back : Console → Console
step_back s =
    if (s.col == 0) && ltb 0 s.row
    then record s { col = 79; row = s.row - 1 }
    else if ltb 0 s.col
    then record s { col = s.col - 1 }
    else s

pub write_k : ℕ → Console → Console
write_k v s =
    if v == 0
    then s
    else if v == 10
    then do_newline s
    else if v == 9
    then write_tab 4 0 s
    else if v == 8
    then step_back (write_plain space (step_back s))
    else write_plain v s
