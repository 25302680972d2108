-- ===== src/Console/Command.antt =====
-- What the commands of the escape machine do to the cursor and to the cells behind the screen; the
-- position that `ESC [ r ; c H` asks for is a case of its own.
use os_training.Base.{
  ℕ, zero, suc, ◌+◌, ◌-◌, ◌*◌, ◌^◌, ◌<◌, ◌≤◌, ◌≡◌, ◌≢◌, ◌⊎◌, refl, ap, ◌∙◌, Bool, true, false, ◌&&◌,
  ◌==◌, ltb, leb, if◌then◌else◌, arith, inl, inr, ==_iff, length, get_or, Option, some, none,
}
use os_training.Console.Display.{Console, normal, erase_rows}
use os_training.Console.Cursor.{move_left, move_right, at_least_one, int_bound}
use os_training.Console.Escape.{
  write_esc, run_command, set_style, set_styles, set_font_style, move_cursor, erase_in_display,
}
use os_training.Console.Params.{set_style-params}
use os_training.Console.Scroll.{erase_screen-eq}
use os_training.Console.Bounds.{OnScreen, Safe, Safe-trans, still, to_state, Safe-refl, Safe-if}

-- A result that is safe if it is a console, and `none` only for the reason `F`.
abbrev pub SafeResult : (F : Type 0) → Console → Option Console → Type 0
SafeResult F con none = F
SafeResult F con (some con') = Safe con con'

-- What goes wrong at a command.
abbrev pub CommandFault : Console → ℕ → Type 0
CommandFault con c =
    ((c ≡ b'm') × (length con.esc_param < con.curr_param_index))
    ⊎ ((c ≡ b'C') × (2 ^ 31 ≤ con.cursor_col + at_least_one (get_or con.esc_param 0 0)))

-- The position that `ESC [ r ; c H` asks for is on the screen, or the character asks for none.
abbrev pub PositionFits : Console → ℕ → Type 0
PositionFits con c =
    ((c ≢ b'H') × (c ≢ b'f'))
    ⊎ ((get_or con.esc_param 0 0 < con.display_rows)
        × (get_or con.esc_param 1 0 < con.display_cols))

erase_rows-kept :
    (con : Console) (start last : ℕ)
    → ((erase_rows con start last).display_rows ≡ con.display_rows)
      × ((erase_rows con start last).display_cols ≡ con.display_cols)
      × ((erase_rows con start last).old_cursor_row ≡ con.old_cursor_row)
      × ((erase_rows con start last).old_cursor_col ≡ con.old_cursor_col)
unfolding erase_rows
erase_rows-kept con start last = (refl, refl, refl, refl)

-- Other colours.
paint :
    (con : Console) (fg bg : ℕ)
    → OnScreen con
    → Safe con (record con { foreground = fg; background = bg })
paint con fg bg on =
    still con (record con { foreground = fg; background = bg })
      (record { row = on.row; col = on.col; old_row = on.old_row; old_col = on.old_col }) refl refl
      refl

set_style-Safe : (con : Console) (p : ℕ) → OnScreen con → Safe con (set_style con p)
unfolding set_style
set_style-Safe con p on = Safe-if (leb 30 p && leb p 37) con _ _ (paint con _ con.background on) (
    Safe-if (leb 40 p && leb p 47) con _ _ (paint con con.foreground _ on) (
      Safe-if (p == 39) con _ _ (paint con _ con.background on)
        (Safe-if (p == 49) con _ _ (paint con con.foreground _ on) (Safe-refl con on))))

-- A step before, and another reason.
pub SafeResult-trans :
    {F G : Type 0}
    → (a b : Console) (r : Option Console) → (G → F)
    → Safe a b
    → SafeResult G b r
    → SafeResult F a r
SafeResult-trans a b none f p q = f q
SafeResult-trans a b (some c) f p q = Safe-trans a b c p q

-- Another reason for the same result.
pub SafeResult-map :
    (F G : Type 0) (con : Console) (r : Option Console)
    → (G → F)
    → SafeResult G con r
    → SafeResult F con r
SafeResult-map F G con none f p = f p
SafeResult-map F G con (some con') f p = p

-- The branches of a test, each with what the test says there.
pub SafeResult-if :
    (F : Type 0) (b : Bool) (con : Console) (x y : Option Console)
    → (b ≡ true → SafeResult F con x)
    → (b ≡ false → SafeResult F con y)
    → SafeResult F con (if b then x else y)
SafeResult-if F true con x y p q = p refl
SafeResult-if F false con x y p q = q refl

set_styles-Safe :
    (con : Console) (i n : ℕ)
    → OnScreen con
    → SafeResult (length con.esc_param < i + n) con (set_styles con i n)
unfolding set_styles
set_styles-Safe con i zero on = Safe-refl con on
set_styles-Safe con i (suc n) on =
    let styled = set_style con (get_or con.esc_param i 0) in
    let p = set_style-Safe con (get_or con.esc_param i 0) on in
    let same : length styled.esc_param ≡ length con.esc_param =
      ap length (set_style-params con (get_or con.esc_param i 0)) in
    SafeResult-if (length con.esc_param < i + suc n) (ltb i (length con.esc_param)) con _ none
      (λ inside.
        SafeResult-trans con styled (set_styles styled (i + 1) n)
          (λ over. omega (arith, over, same)) p (set_styles-Safe styled (i + 1) n p.0))
      (λ behind. ground (arith, behind))

-- The screen blanked, and the cursor at its top left.
erase_in_display-Safe : (con : Console) → OnScreen con → Safe con (erase_in_display con)
unfolding erase_in_display
erase_in_display-Safe con on =
    let size : con.display_rows ≡ suc (con.display_rows - 1) = omega (arith, on.row) in
    let erased = erase_rows con 0 (con.display_rows - 1) in
    let home : Console = record erased { cursor_col = 0; cursor_row = 0 } in
    let k = erase_rows-kept con 0 (con.display_rows - 1) in
    let on' : OnScreen home = record {
      row = omega (arith, k.0, on.row);
      col = omega (arith, k.1, on.col);
      old_row = omega (arith, k.0, k.2, on.old_row);
      old_col = omega (arith, k.1, k.3, on.old_col);
    } in
    let untouched : (i : ℕ) → con.display_rows * con.display_cols ≤ i → home.disp i ≡ con.disp i =
      λ i h. ground (arith, erase_screen-eq con (con.display_rows - 1) i size) in
    Safe-if (con.curr_param_index == 0) con _ _ (Safe-refl con on) (
      Safe-if (get_or con.esc_param 0 0 == 2) con _ _
        (on', record { rows = k.0; cols = k.1; behind = untouched }) (Safe-refl con on))

-- The cursor kept or restored, the machine in another state.
pub write_esc-Safe : (con : Console) (c : ℕ) → OnScreen con → Safe con (write_esc con c)
unfolding write_esc
write_esc-Safe con c on =
    Safe-if (c == b'7') con _ _
      (still con _ (record { row = on.row; col = on.col; old_row = on.row; old_col = on.col }) refl
        refl refl)
      (Safe-if (c == b'8') con _ _
        (still con _
          (record {
            row = on.old_row;
            col = on.old_col;
            old_row = on.old_row;
            old_col = on.old_col;
          })
          refl refl refl)
        (Safe-if (c == b'[') con _ _
          (still con _
            (record { row = on.row; col = on.col; old_row = on.old_row; old_col = on.old_col }) refl
            refl refl)
          (to_state con normal on)))

move_left-Safe : (con : Console) (n : ℕ) → OnScreen con → Safe con (move_left con n)
unfolding move_left
move_left-Safe con n on =
    still con _
      (record {
        row = on.row;
        col = omega (arith, on.col);
        old_row = on.old_row;
        old_col = on.old_col;
      })
      refl refl refl

move_right-Safe :
    (con : Console) (n : ℕ)
    → OnScreen con
    → SafeResult (2 ^ 31 ≤ con.cursor_col + at_least_one n) con (move_right con n)
unfolding move_right
move_right-Safe con n on =
    let col = con.cursor_col + at_least_one n in
    let bound : (if leb con.display_cols col then con.display_cols - 1 else col)
        < con.display_cols =
      ground (arith, on.col) in
    SafeResult-if (2 ^ 31 ≤ col) (ltb col int_bound) con _ none
      (λ inside.
        still con _
          (record { row = on.row; col = bound; old_row = on.old_row; old_col = on.old_col }) refl
          refl refl)
      (λ over. ground (arith, over))

-- A position that is on the screen.
move_cursor-Safe :
    (con : Console)
    → OnScreen con
    → get_or con.esc_param 0 0 < con.display_rows
    → get_or con.esc_param 1 0 < con.display_cols
    → Safe con (move_cursor con)
unfolding move_cursor
move_cursor-Safe con on r c =
    let row : (if leb 1 con.curr_param_index then get_or con.esc_param 0 0 else con.cursor_row)
        < con.display_rows =
      ground (arith, on.row) in
    let col : (if leb 2 con.curr_param_index then get_or con.esc_param 1 0 else con.cursor_col)
        < con.display_cols =
      ground (arith, on.col) in
    still con _ (record { row = row; col = col; old_row = on.old_row; old_col = on.old_col }) refl
      refl refl

-- A command that moves the cursor to a position has one that fits.
goto_fits :
    (con : Console) (c k : ℕ)
    → OnScreen con
    → PositionFits con c
    → (k ≡ b'H') ⊎ (k ≡ b'f')
    → (c == k) ≡ true
    → Safe con (move_cursor con)
goto_fits con c k on (inr (r, q)) which here = move_cursor-Safe con on r q
goto_fits con c k on (inl (h, f)) (inl e) here = absurd (h ((==_iff c k).0 here ∙ e))
goto_fits con c k on (inl (h, f)) (inr e) here = absurd (f ((==_iff c k).0 here ∙ e))

pub run_command-Safe :
    (con : Console) (c : ℕ)
    → OnScreen con
    → PositionFits con c
    → SafeResult (CommandFault con c) con (run_command con c)
unfolding run_command set_font_style
run_command-Safe con c on fits =
    let n = get_or con.esc_param 0 0 in
    SafeResult-if (CommandFault con c) (c == b'm') con _ _
      (λ m.
        SafeResult-map (CommandFault con c) (length con.esc_param < 0 + con.curr_param_index) con _
          (λ over. inl ((==_iff c b'm').0 m, omega (arith, over)))
          (set_styles-Safe con 0 con.curr_param_index on))
      (λ _.
        SafeResult-if (CommandFault con c) (c == b'D') con _ _ (λ _. move_left-Safe con n on)
          (λ _.
            SafeResult-if (CommandFault con c) (c == b'C') con _ _
              (λ right.
                SafeResult-map (CommandFault con c) (2 ^ 31 ≤ con.cursor_col + at_least_one n) con _
                  (λ over. inr ((==_iff c b'C').0 right, over)) (move_right-Safe con n on))
              (λ _.
                SafeResult-if (CommandFault con c) (c == b'H') con _ _
                  (goto_fits con c b'H' on fits (inl refl))
                  (λ _.
                    SafeResult-if (CommandFault con c) (c == b'f') con _ _
                      (goto_fits con c b'f' on fits (inr refl))
                      (λ _.
                        SafeResult-if (CommandFault con c) (c == b'J') con _ _
                          (λ _. erase_in_display-Safe con on) (λ _. Safe-refl con on))))))
