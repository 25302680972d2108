-- ===== src/Console/Escape.antt =====
-- The state machine of source/kernel/dev/console.c: plain characters, `ESC c` and `ESC [ … c`.
-- `none` is an access of `esc_param` behind its last entry or a sum that is no `int`: the language
-- says no more about what happens then. So the entries of `esc_param` are never negative.
use os_training.Base.{
  ℕ, zero, suc, ◌+◌, ◌-◌, ◌*◌, ◌/◌, ◌%◌, ◌&&◌, ◌==◌, ltb, leb, if◌then◌else◌, Option, none, some,
  List, [], ◌∷◌, length, get_or, set, replicate,
}
use os_training.Console.Display.{Console, normal, esc, square, clear_display, erase_rows}
use os_training.Console.Cursor.{
  move_to_col0, move_next_line, show_char, save_cursor, restore_cursor, move_backword,
  erase_backword, move_next_tab, move_left, move_right, int_bound,
}

abbrev pub esc_param_max : ℕ
esc_param_max = 10

abbrev pub ascii_esc : ℕ
ascii_esc = 0x1b

abbrev pub color_white : ℕ
color_white = 15

abbrev pub color_black : ℕ
color_black = 0

-- Black, Red, Green, Yellow, Blue, Magenta, Cyan, White as `cclor_t`.
abbrev pub color_table : List ℕ
color_table = 0 ∷ 4 ∷ 2 ∷ 14 ∷ 1 ∷ 5 ∷ 3 ∷ 15 ∷ []

-- `console_init(idx)` over what the console held; `cursor_pos` is what the display controller
-- reports, which is read for console 0 alone.
unfoldable pub console_init : Console → (idx cursor_pos : ℕ) → Console
unfolding clear_display
console_init con idx cursor_pos =
    let fresh : Console = record con {
      display_cols = 80;
      display_rows = 25;
      foreground = color_white;
      background = color_black;
    } in
    let first : Console = record fresh {
      cursor_row = cursor_pos / 80;
      cursor_col = cursor_pos % 80;
      old_cursor_row = cursor_pos / 80;
      old_cursor_col = cursor_pos % 80;
    } in
    let other : Console = record fresh {
      cursor_row = 0;
      cursor_col = 0;
      old_cursor_row = 0;
      old_cursor_col = 0;
    } in
    if idx == 0 then first else clear_display other

unfoldable pub write_normal : Console → ℕ → Console
write_normal con c =
    if c == ascii_esc
    then record con { write_state = esc }
    else if c == 0x7F
    then erase_backword con
    else if c == 8
    then (move_backword con).1
    else if c == 9
    then move_next_tab con
    else if c == 13
    then move_to_col0 con
    else if c == 10
    then move_next_line con
    else if leb b' ' c && leb c b'~'
    then show_char con c
    else con

unfoldable pub move_cursor : Console → Console
move_cursor con =
    let row = if leb 1 con.curr_param_index then get_or con.esc_param 0 0 else con.cursor_row in
    let col = if leb 2 con.curr_param_index then get_or con.esc_param 1 0 else con.cursor_col in
    record con { cursor_row = row; cursor_col = col }

unfoldable pub clear_esc_param : Console → Console
clear_esc_param con = record con { esc_param = replicate esc_param_max 0; curr_param_index = 0 }

unfoldable pub write_esc : Console → ℕ → Console
unfolding save_cursor restore_cursor clear_esc_param
write_esc con c =
    let saved = save_cursor con in
    let restored = restore_cursor con in
    let cleared = clear_esc_param con in
    if c == b'7'
    then record saved { write_state = normal }
    else if c == b'8'
    then record restored { write_state = normal }
    else if c == b'['
    then record cleared { write_state = square }
    else record con { write_state = normal }

unfoldable pub erase_in_display : Console → Console
unfolding erase_rows
erase_in_display con =
    let erased = erase_rows con 0 (con.display_rows - 1) in
    if con.curr_param_index == 0
    then con
    else if get_or con.esc_param 0 0 == 2
    then record erased { cursor_col = 0; cursor_row = 0 }
    else con

-- One parameter of `ESC [ … m`.
unfoldable pub set_style : Console → ℕ → Console
set_style con param =
    if leb 30 param && leb param 37
    then record con { foreground = get_or color_table (param - 30) 0 }
    else if leb 40 param && leb param 47
    then record con { background = get_or color_table (param - 40) 0 }
    else if param == 39
    then record con { foreground = color_white }
    else if param == 49
    then record con { background = color_black }
    else con

-- The parameters from entry `i` on, `n` of them.
unfoldable pub set_styles : Console → (i n : ℕ) → Option Console
set_styles con i zero = some con
set_styles con i (suc n) =
    let rest = set_styles (set_style con (get_or con.esc_param i 0)) (i + 1) n in
    if ltb i (length con.esc_param) then rest else none

unfoldable pub set_font_style : Console → Option Console
set_font_style con = set_styles con 0 con.curr_param_index

abbrev pub back_to_normal : Option Console → Option Console
back_to_normal none = none
back_to_normal (some con) = some (record con { write_state = normal })

-- The command at the end of `ESC [ …`; any other character does nothing.
unfoldable pub run_command : Console → ℕ → Option Console
run_command con c =
    let n = get_or con.esc_param 0 0 in
    if c == b'm'
    then set_font_style con
    else if c == b'D'
    then some (move_left con n)
    else if c == b'C'
    then move_right con n
    else if c == b'H'
    then some (move_cursor con)
    else if c == b'f'
    then some (move_cursor con)
    else if c == b'J'
    then some (erase_in_display con)
    else some con

unfoldable pub write_esc_square : Console → ℕ → Option Console
write_esc_square con c =
    let i = con.curr_param_index in
    let param = get_or con.esc_param i 0 in
    let digit : Console = record con { esc_param = set con.esc_param i (param * 10 + c - b'0') } in
    let next : Console = record con { curr_param_index = i + 1 } in
    if leb b'0' c && leb c b'9'
    then (if ltb i (length con.esc_param) && ltb (param * 10 + c) int_bound
        then some digit
        else none)
    else if (c == b';') && ltb i esc_param_max
    then some next
    else back_to_normal (run_command next c)

-- One character of `console_write`.
unfoldable pub write_char : Console → ℕ → Option Console
write_char con c = elim con.write_state [
  | normal ↦ some (write_normal con c)
  | esc ↦ some (write_esc con c)
  | square ↦ write_esc_square con c
]

-- The characters that `console_write` takes out of the output queue, in order.
unfoldable pub write_chars : Console → List ℕ → Option Console
write_chars con [] = some con
write_chars con (c ∷ cs) = elim (write_char con c) [ none ↦ none | some con' ↦ write_chars con' cs ]
