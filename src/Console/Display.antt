-- ===== src/Console/Display.antt =====
-- The state of a console, and the functions of source/kernel/dev/console.c that write its display
-- memory: `clear_display`, `erase_rows` and `scroll_up`.
-- The display memory is a function of the offset from `disp_base`, so a write behind the last
-- cell of the console is seen: it would hit the next console. Cursor positions and escape
-- parameters are numbers; where the escape machine leaves the range of `int`, it stops.
use os_training.Base.{ℕ, zero, suc, ◌+◌, ◌-◌, ◌*◌, ◌%◌, ◌==◌, if◌then◌else◌, List}

-- `disp_char_t`: the colours are bit fields of 4 and 3 bits.
pub record DispChar : Type 0 where
  pub c : ℕ
  pub foreground : ℕ
  pub background : ℕ

pub data WriteState : Type 0 where
  normal esc square : WriteState

-- `console_t` without its mutex.
pub record Console : Type 0 where
  pub disp : ℕ → DispChar
  pub write_state : WriteState
  pub cursor_row : ℕ
  pub cursor_col : ℕ
  pub display_rows : ℕ
  pub display_cols : ℕ
  pub old_cursor_col : ℕ
  pub old_cursor_row : ℕ
  pub foreground : ℕ
  pub background : ℕ
  pub esc_param : List ℕ
  pub curr_param_index : ℕ

-- A cell as `start->c = …; start->foreground = …; start->background = …` leave it.
abbrev pub cell : (c fg bg : ℕ) → DispChar
cell c fg bg = record { c = c; foreground = fg % 16; background = bg % 8 }

abbrev pub blank : Console → DispChar
blank con = cell b' ' con.foreground con.background

abbrev pub put_cell : (ℕ → DispChar) → ℕ → DispChar → ℕ → DispChar
put_cell d p v i = if i == p then v else d i

-- The loop that fills `n` cells from `p` on.
unfoldable pub fill : (ℕ → DispChar) → (p : ℕ) → DispChar → (n : ℕ) → ℕ → DispChar
fill d p v zero = d
fill d p v (suc n) = fill (put_cell d p v) (p + 1) v n

unfoldable pub clear_display : Console → Console
clear_display con = record con {
  disp = fill con.disp 0 (blank con) (con.display_cols * con.display_rows);
}

-- From the first cell of row `start` up to the first cell behind row `end`.
unfoldable pub erase_rows : Console → (start last : ℕ) → Console
erase_rows con start last =
    let p = con.display_cols * start in
    record con { disp = fill con.disp p (blank con) (con.display_cols * (last + 1) - p) }

-- `kernel_memcpy` of `n` cells from `p + off` to `p`, in ascending order; the two ranges overlap.
unfoldable pub copy_down : (ℕ → DispChar) → (p off n : ℕ) → ℕ → DispChar
copy_down d p off zero = d
copy_down d p off (suc n) = copy_down (put_cell d p (d (p + off))) (p + 1) off n

unfoldable pub scroll_up : Console → (lines : ℕ) → Console
unfolding erase_rows
scroll_up con lines =
    let size = (con.display_rows - lines) * con.display_cols in
    let moved : Console = record con {
      disp = copy_down con.disp 0 (con.display_cols * lines) size;
    } in
    let erased = erase_rows moved (con.display_rows - lines) (con.display_rows - 1) in
    record erased { cursor_row = con.cursor_row - lines }
