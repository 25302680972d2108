-- ===== src/Console/Text.antt =====
-- `console_write` of plain text: a whole string, one character after the other.
use os_training.Base.{ℕ, ◌≡◌, ◌≢◌, refl, ap, ◌∙◌, false, ◌==◌, some, none, List, [], ◌∷◌, arith}
use os_training.LinkedList.Chain.{ne→==_false}
use os_training.Console.Display.{Console, normal, esc, square, scroll_up}
use os_training.Console.Cursor.{
  move_to_col0, move_next_line, step_forward, move_forward, show_char, step_backword, move_backword,
  erase_backword, move_next_tab,
}
use os_training.Console.Escape.{
  ascii_esc, write_normal, write_esc, write_esc_square, write_char, write_chars,
}
use os_training.Console.Bounds.{OnScreen, Safe, Safe-refl, Safe-trans, write_normal-Safe}

module _ (con : Console) where
  write_state-move_next_line : (move_next_line con).write_state ≡ con.write_state
  unfolding move_next_line scroll_up
  write_state-move_next_line = ground arith

  write_state-move_backword : (move_backword con).1.write_state ≡ con.write_state
  unfolding move_backword step_backword
  write_state-move_backword = ground arith

write_state-step_forward : (con : Console) → (step_forward con).write_state ≡ con.write_state
unfolding step_forward
write_state-step_forward con =
    ground (arith, write_state-move_next_line (record con { cursor_col = 0 }))

write_state-show_char : (con : Console) (c : ℕ) → (show_char con c).write_state ≡ con.write_state
unfolding show_char move_forward
write_state-show_char con c = write_state-step_forward _

write_state-erase_backword : (con : Console) → (erase_backword con).write_state ≡ con.write_state
unfolding erase_backword
write_state-erase_backword con =
    let back = (move_backword con).1 in
    ground (
      arith,
      write_state-move_backword con,
      write_state-show_char back b' ',
      write_state-move_backword (show_char back b' '),
    )

write_state-move_next_tab : (con : Console) → (move_next_tab con).write_state ≡ con.write_state
unfolding move_next_tab
write_state-move_next_tab con = ground (arith, write_state-move_next_line con)

-- Any character but ESC leaves the machine in its state.
pub write_state-write_normal :
    (con : Console) (c : ℕ) → c ≢ ascii_esc → (write_normal con c).write_state ≡ con.write_state
unfolding write_normal move_to_col0
write_state-write_normal con c ne =
    let no_esc : (c == ascii_esc) ≡ false = ne→==_false c ascii_esc ne in
    rw no_esc (
      ground (
        arith,
        write_state-erase_backword con,
        write_state-move_backword con,
        write_state-move_next_tab con,
        write_state-move_next_line con,
        write_state-show_char con c,
      ))

-- No character of the text is ESC.
abbrev pub IsText : List ℕ → Type 0
IsText [] = Unit
IsText (c ∷ cs) = (c ≢ ascii_esc) × IsText cs

write_char-normal :
    (con : Console) (c : ℕ)
    → con.write_state ≡ normal
    → write_char con c ≡ some (write_normal con c)
unfolding write_char
write_char-normal con c state =
    ap
      (λ w. elim w [
        | normal ↦ some (write_normal con c)
        | esc ↦ some (write_esc con c)
        | square ↦ write_esc_square con c
      ])
      state

write_chars-step :
    (con con' : Console) (c : ℕ) (cs : List ℕ)
    → write_char con c ≡ some con'
    → write_chars con (c ∷ cs) ≡ write_chars con' cs
unfolding write_chars
write_chars-step con con' c cs e =
    ap (λ r. elim r [ none ↦ none | some next ↦ write_chars next cs ]) e

-- On a console in the normal state whose cursor and saved cursor are on the screen, any text
-- without the character ESC is written to its end with no access out of bounds: both cursors stay
-- on the screen, its size stays, no cell behind it is written, and the console is in the normal
-- state again.
pub write_chars-text :
    (con : Console) (cs : List ℕ)
    → OnScreen con
    → con.write_state ≡ normal
    → IsText cs
    → (con' : Console) × (write_chars con cs ≡ some con')
      × Safe con con'
      × (con'.write_state ≡ normal)
unfolding write_chars
write_chars-text con [] on state text = (con, refl, Safe-refl con on, state)
write_chars-text con (c ∷ cs) on state text =
    let next = write_normal con c in
    let p = write_normal-Safe con c on in
    let (con', e, q, s) =
      write_chars-text next cs p.0 (write_state-write_normal con c text.0 ∙ state) text.1 in
    (
      con',
      write_chars-step con next c cs (write_char-normal con c state) ∙ e,
      Safe-trans con next con' p q,
      s,
    )
