-- ===== src/Console/Bounds.antt =====
-- The cursor on the screen, the cells behind it, and what a character in the normal state does to
-- them.
use os_training.Base.{
  ℕ, suc, ◌+◌, ◌-◌, ◌*◌, ◌/◌, ◌<◌, ◌≤◌, ◌≡◌, refl, ap, sym, ◌∙◌, Bool, true, false, ◌&&◌, ◌==◌, ltb,
  leb, if◌then◌else◌, arith, Bool-cases, inl, inr,
}
use mathlib.Core.Path.{subst₂}
use os_training.Console.Display.{Console, WriteState, esc, cell, put_cell, scroll_up}
use os_training.Console.Cursor.{
  move_to_col0, move_next_line, step_forward, move_forward, show_char, step_backword, move_backword,
  erase_backword, move_next_tab,
}
use os_training.Console.Escape.{ascii_esc, write_normal}
use os_training.Console.Scroll.{scroll_up-eq}

-- The cursor and the saved cursor are on the screen, which has a cell.
pub record OnScreen (con : Console) : Type 0 where
  pub row : con.cursor_row < con.display_rows
  pub col : con.cursor_col < con.display_cols
  pub old_row : con.old_cursor_row < con.display_rows
  pub old_col : con.old_cursor_col < con.display_cols

-- `con'` has the size of `con`, and the cells behind the screen are untouched.
pub record Within (con con' : Console) : Type 0 where
  pub rows : con'.display_rows ≡ con.display_rows
  pub cols : con'.display_cols ≡ con.display_cols
  pub behind : (i : ℕ) → con.display_rows * con.display_cols ≤ i → con'.disp i ≡ con.disp i

-- A step that leaves the cursor on the screen and writes inside it.
abbrev pub Safe : Console → Console → Type 0
Safe con con' = OnScreen con' × Within con con'

pub Within-trans : (a b c : Console) → Within a b → Within b c → Within a c
Within-trans a b c p q = record {
  rows = q.rows ∙ p.rows;
  cols = q.cols ∙ p.cols;
  behind = λ i h. q.behind i (subst₂ (λ m n. m * n ≤ i) (sym p.rows) (sym p.cols) h) ∙ p.behind i h;
}

-- A move that leaves the cells alone.
pub still :
    (con con' : Console)
    → OnScreen con'
    → con'.display_rows ≡ con.display_rows
    → con'.display_cols ≡ con.display_cols
    → con'.disp ≡ con.disp
    → Safe con con'
still con con' on r c d = (on, record { rows = r; cols = c; behind = λ i h. ap (λ f. f i) d })

scroll_up-kept :
    (con : Console) (n : ℕ)
    → ((scroll_up con n).display_rows ≡ con.display_rows)
      × ((scroll_up con n).display_cols ≡ con.display_cols)
      × ((scroll_up con n).cursor_row ≡ con.cursor_row - n)
      × ((scroll_up con n).cursor_col ≡ con.cursor_col)
      × ((scroll_up con n).old_cursor_row ≡ con.old_cursor_row)
      × ((scroll_up con n).old_cursor_col ≡ con.old_cursor_col)
unfolding scroll_up
scroll_up-kept con n = (refl, refl, refl, refl, refl, refl)

scroll_up-Within :
    (con : Console) → 0 < con.display_rows → 0 < con.display_cols → Within con (scroll_up con 1)
scroll_up-Within con hr hc =
    let r = con.display_rows - 1 in
    let e : con.display_rows ≡ suc r = omega arith in
    let size : con.display_rows * con.display_cols ≡ r * con.display_cols + con.display_cols =
      ap (λ n. n * con.display_cols) e ∙ omega arith in
    let k = scroll_up-kept con 1 in
    record { rows = k.0; cols = k.1; behind = λ i h. ground (arith, scroll_up-eq con r i e hc) }

-- The same screen and cursor, in another state of the machine.
pub to_state :
    (con : Console) (w : WriteState) → OnScreen con → Safe con (record con { write_state = w })
to_state con w on =
    still con (record con { write_state = w })
      (record { row = on.row; col = on.col; old_row = on.old_row; old_col = on.old_col }) refl refl
      refl

pub Safe-refl : (con : Console) → OnScreen con → Safe con con
Safe-refl con on = (on, record { rows = refl; cols = refl; behind = λ i h. refl })

pub Safe-if :
    (b : Bool) (con x y : Console) → Safe con x → Safe con y → Safe con (if b then x else y)
Safe-if true con x y p q = p
Safe-if false con x y p q = q

Safe-if₁ :
    (b : Bool) (con : Console) (x y : Bool × Console)
    → Safe con x.1
    → Safe con y.1
    → Safe con (if b then x else y).1
Safe-if₁ true con x y p q = p
Safe-if₁ false con x y p q = q

-- The line below, with the cursor on it; the caller's column is on the screen.
move_next_line-Safe : (con : Console) → OnScreen con → Safe con (move_next_line con)
unfolding move_next_line
move_next_line-Safe con on =
    let below : Console = record con { cursor_row = con.cursor_row + 1 } in
    let k = scroll_up-kept below 1 in
    let w = scroll_up-Within below (omega (arith, on.row)) (omega (arith, on.col)) in
    elim (Bool-cases (leb con.display_rows (con.cursor_row + 1))) [
      | inl over ↦ rw over (
        record {
          row = omega (arith, k.0, k.2, on.row);
          col = omega (arith, k.1, k.3, on.col);
          old_row = omega (arith, k.0, k.4, on.old_row);
          old_col = omega (arith, k.1, k.5, on.old_col);
        },
        record { rows = w.rows; cols = w.cols; behind = w.behind },
      )
      | inr fits ↦ rw fits (
          still con below
            (record {
              row = ground arith;
              col = on.col;
              old_row = on.old_row;
              old_col = on.old_col;
            })
            refl refl refl)
    ]

pub Safe-trans : (a b c : Console) → Safe a b → Safe b c → Safe a c
Safe-trans a b c p q = (q.0, Within-trans a b c p.1 q.1)

at_col0 : (con : Console) → OnScreen con → Safe con (record con { cursor_col = 0 })
at_col0 con on =
    still con (record con { cursor_col = 0 })
      (record {
        row = on.row;
        col = omega (arith, on.col);
        old_row = on.old_row;
        old_col = on.old_col;
      })
      refl refl refl

step_forward-Safe : (con : Console) → OnScreen con → Safe con (step_forward con)
unfolding step_forward
step_forward-Safe con on =
    let wrapped : Console = record con { cursor_col = 0 } in
    let p = at_col0 con on in
    elim (Bool-cases (leb con.display_cols (con.cursor_col + 1))) [
      | inl over ↦
          rw over
            (Safe-trans con wrapped (move_next_line wrapped) p (move_next_line-Safe wrapped p.0))
      | inr fits ↦ rw fits (
          still con (record con { cursor_col = con.cursor_col + 1 })
            (record {
              row = on.row;
              col = ground arith;
              old_row = on.old_row;
              old_col = on.old_col;
            })
            refl refl refl)
    ]

-- The cell under a cursor on the screen is a cell of the screen.
offset_lt : (row col rows cols : ℕ) → row < rows → col < cols → col + row * cols < rows * cols
offset_lt row col rows cols h k =
    let next : (row + 1) * cols ≤ rows * cols = grind arith in
    let split : (row + 1) * cols ≡ row * cols + cols = omega arith in omega arith

show_char-Safe : (con : Console) (c : ℕ) → OnScreen con → Safe con (show_char con c)
unfolding show_char move_forward
show_char-Safe con c on =
    let offset = con.cursor_col + con.cursor_row * con.display_cols in
    let shown : Console = record con {
      disp = put_cell con.disp offset (cell c con.foreground con.background);
    } in
    let inside =
      offset_lt con.cursor_row con.cursor_col con.display_rows con.display_cols on.row on.col in
    let on' : OnScreen shown = record {
      row = on.row;
      col = on.col;
      old_row = on.old_row;
      old_col = on.old_col;
    } in
    Safe-trans con shown (step_forward shown)
      (on', record { rows = refl; cols = refl; behind = λ i h. ground arith })
      (step_forward-Safe shown on')

move_backword-Safe : (con : Console) → OnScreen con → Safe con (move_backword con).1
unfolding move_backword step_backword
move_backword-Safe con on =
    Safe-if₁ (ltb 0 con.cursor_col) con _ _
      (still con (record con { cursor_col = con.cursor_col - 1 })
        (record {
          row = on.row;
          col = omega (arith, on.col);
          old_row = on.old_row;
          old_col = on.old_col;
        })
        refl refl refl)
      (Safe-if₁ (ltb 0 con.cursor_row) con _ _
        (still con
          (record con { cursor_row = con.cursor_row - 1; cursor_col = con.display_cols - 1 })
          (record {
            row = omega (arith, on.row);
            col = omega (arith, on.col);
            old_row = on.old_row;
            old_col = on.old_col;
          })
          refl refl refl)
        (Safe-refl con on))

erase_backword-Safe : (con : Console) → OnScreen con → Safe con (erase_backword con)
unfolding erase_backword
erase_backword-Safe con on =
    let back = (move_backword con).1 in
    let p = move_backword-Safe con on in
    let shown = show_char back b' ' in
    let q = show_char-Safe back b' ' p.0 in
    let r = move_backword-Safe shown q.0 in
    elim (Bool-cases (move_backword con).0) [
      | inl moved ↦ rw moved (
          Safe-trans con back (move_backword shown).1 p
            (Safe-trans back shown (move_backword shown).1 q r))
      | inr stuck ↦ rw stuck p
    ]

move_next_tab-Safe : (con : Console) → OnScreen con → Safe con (move_next_tab con)
unfolding move_next_tab
move_next_tab-Safe con on =
    let col = (con.cursor_col + 7) / 8 * 8 in
    let down = move_next_line con in
    let p = move_next_line-Safe con on in
    elim (Bool-cases (leb con.display_cols col)) [
      | inl over ↦
          rw over (Safe-trans con down (record down { cursor_col = 0 }) p (at_col0 down p.0))
      | inr fits ↦ rw fits (
          still con (record con { cursor_col = col })
            (record {
              row = on.row;
              col = ground arith;
              old_row = on.old_row;
              old_col = on.old_col;
            })
            refl refl refl)
    ]

-- A character in the normal state.
pub write_normal-Safe : (con : Console) (c : ℕ) → OnScreen con → Safe con (write_normal con c)
unfolding write_normal move_to_col0
write_normal-Safe con c on = Safe-if (c == ascii_esc) con _ _ (to_state con esc on) (
    Safe-if (c == 0x7F) con _ _ (erase_backword-Safe con on) (
      Safe-if (c == 8) con _ _ (move_backword-Safe con on) (
        Safe-if (c == 9) con _ _ (move_next_tab-Safe con on) (
          Safe-if (c == 13) con _ _ (at_col0 con on) (
            Safe-if (c == 10) con _ _ (move_next_line-Safe con on) (
              Safe-if (leb b' ' c && leb c b'~') con _ _ (show_char-Safe con c on)
                (Safe-refl con on)))))))
