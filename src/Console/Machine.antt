-- ===== src/Console/Machine.antt =====
-- What a character in each state of the machine does to the cursor, to the cells behind the
-- screen, and to the parameters.
use os_training.Base.{
  ℕ, ◌+◌, ◌*◌, ◌-◌, ◌≤◌, ◌≡◌, refl, ◌&&◌, ◌==◌, ltb, leb, arith, length, get_or, set, List,
  if◌then◌else◌, Bool-cases, Option, some, none, inl, inr,
}
use os_training.Console.Display.{Console, WriteState, normal, esc, square}
use os_training.Console.Cursor.{int_bound}
use os_training.Console.Escape.{
  write_normal, write_esc, write_esc_square, write_char, run_command, back_to_normal, esc_param_max,
}
use os_training.Console.Bounds.{OnScreen, Safe, Safe-trans, still, to_state, write_normal-Safe}
use os_training.Console.Params.{
  Fault, digit_behind, digit_overflows, style_behind, move_overflows, HasParams, KeepsParams,
  write_char_in-KeepsParams,
}
use os_training.Console.Command.{
  SafeResult, CommandFault, PositionFits, SafeResult-trans, SafeResult-map, SafeResult-if,
  run_command-Safe, write_esc-Safe,
}

back_to_normal-Safe :
    (F : Type 0) (con : Console) (r : Option Console)
    → SafeResult F con r
    → SafeResult F con (back_to_normal r)
back_to_normal-Safe F con none p = p
back_to_normal-Safe F con (some con') p = Safe-trans con con' _ p (to_state con' normal p.0)

-- `OnScreen` and the cells do not see the escape parameters.
same_screen :
    (con : Console) (ps : List ℕ) (i : ℕ)
    → OnScreen con
    → Safe con (record con { esc_param = ps; curr_param_index = i })
same_screen con ps i on =
    still con (record con { esc_param = ps; curr_param_index = i })
      (record { row = on.row; col = on.col; old_row = on.old_row; old_col = on.old_col }) refl refl
      refl

-- What goes wrong at a command goes wrong at the character.
command_fault :
    (con : Console) (c : ℕ)
    → length con.esc_param ≡ esc_param_max
    → con.curr_param_index ≤ esc_param_max
    → CommandFault (record con { curr_param_index = con.curr_param_index + 1 }) c
    → Fault con c
command_fault con c full index (inl (m, over)) = style_behind m (omega (arith, full, index, over))
command_fault con c full index (inr (right, over)) = move_overflows right over

digit-Safe :
    (con : Console) (c : ℕ)
    → OnScreen con
    → length con.esc_param ≡ esc_param_max
    → con.curr_param_index ≤ esc_param_max
    → b'0' ≤ c
    → c ≤ b'9'
    → let i = con.curr_param_index in
      let param = get_or con.esc_param i 0 in
      let digit : Console = record con {
        esc_param = set con.esc_param i (param * 10 + c - b'0');
      } in
      SafeResult (Fault con c) con (
        if ltb i (length con.esc_param) && ltb (param * 10 + c) int_bound then some digit else none)
digit-Safe con c on full index low high =
    let i = con.curr_param_index in
    let param = get_or con.esc_param i 0 in
    elim (Bool-cases (ltb i (length con.esc_param))) [
      | inl inside ↦ rw inside (
          SafeResult-if (Fault con c) (ltb (param * 10 + c) int_bound) con _ none
            (λ _. same_screen con _ i on) (λ over. digit_overflows low high (ground (arith, over))))
      | inr behind ↦ rw behind (digit_behind low high (ground (arith, behind, full, index)))
    ]

write_esc_square-Safe :
    (con : Console) (c : ℕ)
    → OnScreen con
    → length con.esc_param ≡ esc_param_max
    → con.curr_param_index ≤ esc_param_max
    → PositionFits con c
    → SafeResult (Fault con c) con (write_esc_square con c)
unfolding write_esc_square
write_esc_square-Safe con c on full index fits =
    let i = con.curr_param_index in
    let next : Console = record con { curr_param_index = i + 1 } in
    let p = same_screen con con.esc_param (i + 1) on in
    SafeResult-if (Fault con c) (leb b'0' c && leb c b'9') con _ _
      (λ d. digit-Safe con c on full index (ground (arith, d)) (ground (arith, d)))
      (λ _.
        SafeResult-if (Fault con c) ((c == b';') && ltb i esc_param_max) con _ _ (λ _. p)
          (λ _. SafeResult-trans con next _ (command_fault con c full index) p (
            back_to_normal-Safe (CommandFault next c) next (run_command next c)
              (run_command-Safe next c p.0 fits))))

-- The three states, with the state as an argument.
write_char_in :
    (con : Console) (c : ℕ) (w : WriteState)
    → con.write_state ≡ w
    → OnScreen con
    → HasParams con
    → (w ≡ square → PositionFits con c)
    → SafeResult ((w ≡ square) × Fault con c) con (elim w [
      | normal ↦ some (write_normal con c)
      | esc ↦ some (write_esc con c)
      | square ↦ write_esc_square con c
    ])
write_char_in con c normal state on has fits = write_normal-Safe con c on
write_char_in con c esc state on has fits = write_esc-Safe con c on
write_char_in con c square state on has fits =
    let r = write_esc_square-Safe con c on (has state).0 (has state).1 (fits refl) in
    SafeResult-map ((square ≡ square) × Fault con c) (Fault con c) con (write_esc_square con c)
      (λ f. (refl, f)) r

-- What a character leaves: a console, or the reason why not.
abbrev pub CharResult : Console → ℕ → Option Console → Type 0
CharResult con c none = (con.write_state ≡ square) × Fault con c
CharResult con c (some con') = Safe con con' × HasParams con'

both :
    (con : Console) (c : ℕ) (r : Option Console)
    → SafeResult ((con.write_state ≡ square) × Fault con c) con r
    → KeepsParams r
    → CharResult con c r
both con c none p q = p
both con c (some con') p q = (p, q)

-- Let the cursor and the saved cursor be on the screen and, inside `ESC [ …`, not more than 10
-- parameters be passed. Writing any character in any state of the escape machine keeps all this,
-- keeps the size of the screen, and writes no cell behind it; or else it is inside `ESC [ …` and
-- one of these: a digit or `m` with 10 parameters passed, which accesses `esc_param` behind its
-- end, a digit that makes a parameter larger than an `int`, or `C` with a column larger than an
-- `int`. Inside `ESC [ …` the character is neither `H` nor `f`, or the first two parameters are a
-- position on the screen.
pub write_char-Safe :
    (con : Console) (c : ℕ)
    → OnScreen con
    → HasParams con
    → (con.write_state ≡ square → PositionFits con c)
    → CharResult con c (write_char con c)
unfolding write_char
write_char-Safe con c on has fits =
    both con c _ (write_char_in con c con.write_state refl on has fits)
      (write_char_in-KeepsParams con c con.write_state refl has)
