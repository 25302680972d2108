-- ===== src/Examples/Screen.antt =====
-- A console of 25 rows with the cursor in its last cell.
use os_training.Base.{ℕ, refl, arith, inr, replicate}
use os_training.Console.Display.{Console, WriteState, normal, square, cell}
use os_training.Console.Escape.{write_char}
use os_training.Console.Bounds.{OnScreen}
use os_training.Console.Machine.{CharResult, write_char-Safe}

-- In the given state, with the parameter `i` being read.
abbrev console : WriteState → ℕ → Console
console w i = record {
  disp = λ p. cell b'a' 15 0;
  write_state = w;
  cursor_row = 24;
  cursor_col = 79;
  display_rows = 25;
  display_cols = 80;
  old_cursor_col = 0;
  old_cursor_row = 0;
  foreground = 15;
  background = 0;
  esc_param = replicate 10 7;
  curr_param_index = i;
}

console-OnScreen : OnScreen (console square 2)
console-OnScreen = record {
  row = omega arith;
  col = omega arith;
  old_row = omega arith;
  old_col = omega arith;
}

write_char-Safe_example : CharResult (console square 2) b'H' (write_char (console square 2) b'H')
write_char-Safe_example =
    write_char-Safe (console square 2) b'H' console-OnScreen (λ e. (refl, omega arith))
      (λ e. inr (omega arith, omega arith))

console-OnScreen_normal : OnScreen (console normal 0)
console-OnScreen_normal = record {
  row = omega arith;
  col = omega arith;
  old_row = omega arith;
  old_col = omega arith;
}
