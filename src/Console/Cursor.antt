-- ===== src/Console/Cursor.antt =====
-- The cursor moves of source/kernel/dev/console.c, and the character that is shown.
use os_training.Base.{
  ℕ, zero, suc, ◌+◌, ◌-◌, ◌*◌, ◌/◌, ◌^◌, Bool, true, false, ◌==◌, ltb, leb, if◌then◌else◌, Option,
  none, some,
}
use os_training.Console.Display.{Console, cell, put_cell, scroll_up}

unfoldable pub move_to_col0 : Console → Console
move_to_col0 con = record con { cursor_col = 0 }

-- `cursor_row++`, and a scroll if that leaves the screen.
unfoldable pub move_next_line : Console → Console
move_next_line con =
    let below : Console = record con { cursor_row = con.cursor_row + 1 } in
    if leb con.display_rows (con.cursor_row + 1) then scroll_up below 1 else below

-- One round of `move_forward`.
unfoldable pub step_forward : Console → Console
unfolding move_next_line
step_forward con =
    let wrapped : Console = record con { cursor_col = 0 } in
    if leb con.display_cols (con.cursor_col + 1)
    then move_next_line wrapped
    else record con { cursor_col = con.cursor_col + 1 }

unfoldable pub move_forward : Console → ℕ → Console
move_forward con zero = con
move_forward con (suc n) = move_forward (step_forward con) n

unfoldable pub show_char : Console → ℕ → Console
show_char con c =
    let offset = con.cursor_col + con.cursor_row * con.display_cols in
    let shown : Console = record con {
      disp = put_cell con.disp offset (cell c con.foreground con.background);
    } in
    move_forward shown 1

unfoldable pub save_cursor : Console → Console
save_cursor con = record con { old_cursor_col = con.cursor_col; old_cursor_row = con.cursor_row }

unfoldable pub restore_cursor : Console → Console
restore_cursor con = record con { cursor_col = con.old_cursor_col; cursor_row = con.old_cursor_row }

-- One round of `move_backword`, with whether it moved.
unfoldable pub step_backword : Console → Bool × Console
step_backword con =
    if ltb 0 con.cursor_col
    then (true, record con { cursor_col = con.cursor_col - 1 })
    else if ltb 0 con.cursor_row
    then (true, record con { cursor_row = con.cursor_row - 1; cursor_col = con.display_cols - 1 })
    else (false, con)

-- `move_backword(console, 1)`, the only call of the source; `true` is status 0.
unfoldable pub move_backword : Console → Bool × Console
unfolding step_backword
move_backword con = step_backword con

unfoldable pub erase_backword : Console → Console
erase_backword con =
    let (moved, back) = move_backword con in
    if moved then (move_backword (show_char back b' ')).1 else back

unfoldable pub move_next_tab : Console → Console
unfolding move_next_line
move_next_tab con =
    let col = (con.cursor_col + 7) / 8 * 8 in
    let down = move_next_line con in
    if leb con.display_cols col
    then record down { cursor_col = 0 }
    else record con { cursor_col = col }

-- The numbers from 0 up that are an `int` are those below.
abbrev pub int_bound : ℕ
int_bound = 2 ^ 31

abbrev pub at_least_one : ℕ → ℕ
at_least_one n = if n == 0 then 1 else n

-- `cursor_col - n` or 0.
unfoldable pub move_left : Console → ℕ → Console
move_left con n = record con { cursor_col = con.cursor_col - at_least_one n }

-- `none` if the sum is no `int`.
unfoldable pub move_right : Console → ℕ → Option Console
move_right con n =
    let col = con.cursor_col + at_least_one n in
    let moved : Console = record con {
      cursor_col = if leb con.display_cols col then con.display_cols - 1 else col;
    } in
    if ltb col int_bound then some moved else none
