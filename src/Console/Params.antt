-- ===== src/Console/Params.antt =====
-- The escape parameters: which characters access `esc_param` out of bounds, or leave the range of
-- `int`.
use os_training.Base.{
  ℕ, zero, suc, ◌+◌, ◌-◌, ◌*◌, ◌^◌, ◌<◌, ◌≤◌, ◌≡◌, ◌⊎◌, refl, sym, ◌∙◌, ap, Bool, true, false, ◌&&◌,
  ◌==◌, ltb, leb, if◌then◌else◌, arith, Bool-cases, inl, inr, length, length-set, get_or, Option,
  some, none, ==_iff,
}
use mathlib.Core.Bool.{false≢true}
use os_training.Console.Display.{Console, WriteState, normal, esc, square}
use os_training.Console.Cursor.{at_least_one, int_bound}
use os_training.Console.Escape.{
  esc_param_max, ascii_esc, set_style, set_styles, set_font_style, write_normal, write_esc,
  write_esc_square, run_command, back_to_normal, write_char,
}
use os_training.Console.Text.{write_state-write_normal}

-- What goes wrong at a character inside `ESC [ …`: a digit or the command `m` when each of the 10
-- parameters has been passed, a parameter or a column that is no `int`.
pub data Fault (con : Console) (c : ℕ) : Type 0 where
  digit_behind : b'0' ≤ c → c ≤ b'9' → con.curr_param_index ≡ esc_param_max → Fault con c
  digit_overflows :
      b'0' ≤ c
      → c ≤ b'9'
      → 2 ^ 31 ≤ get_or con.esc_param con.curr_param_index 0 * 10 + c
      → Fault con c
  style_behind : c ≡ b'm' → con.curr_param_index ≡ esc_param_max → Fault con c
  move_overflows :
      c ≡ b'C' → 2 ^ 31 ≤ con.cursor_col + at_least_one (get_or con.esc_param 0 0) → Fault con c

-- Inside `ESC [ …` there are 10 parameters, and not more of them have been passed.
abbrev pub HasParams : Console → Type 0
HasParams con =
    con.write_state ≡ square
    → (length con.esc_param ≡ esc_param_max) × (con.curr_param_index ≤ esc_param_max)

-- A result that has them, if it is a console.
abbrev pub KeepsParams : Option Console → Type 0
KeepsParams none = Unit
KeepsParams (some con) = HasParams con

KeepsParams-if :
    (b : Bool) (x y : Option Console)
    → KeepsParams x
    → KeepsParams y
    → KeepsParams (if b then x else y)
KeepsParams-if true x y p q = p
KeepsParams-if false x y p q = q

HasParams-if :
    (b : Bool) (x y : Console) → HasParams x → HasParams y → HasParams (if b then x else y)
HasParams-if true x y p q = p
HasParams-if false x y p q = q

-- A state that is not `square` asks for nothing.
normal_outside : {A : Type 0} → normal ≡ square → A
normal_outside e = cc

write_normal-HasParams :
    (con : Console) (c : ℕ) → con.write_state ≡ normal → HasParams (write_normal con c)
write_normal-HasParams con c state = elim (Bool-cases (c == ascii_esc)) [
  | inl is_esc ↦ λ inside. absurd (esc_not_square (sym (starts is_esc) ∙ inside))
  | inr other ↦ λ inside. normal_outside (
      sym (
        write_state-write_normal con c (λ e. false≢true (sym other ∙ (==_iff c ascii_esc).1 e))
        ∙ state)
      ∙ inside)
]
  where
    esc_not_square : ¬ (esc ≡ square)
    esc_not_square e = cc

    starts : (c == ascii_esc) ≡ true → (write_normal con c).write_state ≡ esc
    starts e = unfold write_normal in rw e refl

write_esc-HasParams : (con : Console) (c : ℕ) → HasParams (write_esc con c)
unfolding write_esc
write_esc-HasParams con c = HasParams-if (c == b'7') _ _ normal_outside (
    HasParams-if (c == b'8') _ _ normal_outside
      (HasParams-if (c == b'[') _ _ (λ inside. (refl, omega arith)) normal_outside))

back_to_normal-KeepsParams : (r : Option Console) → KeepsParams (back_to_normal r)
back_to_normal-KeepsParams none = tt
back_to_normal-KeepsParams (some con) = normal_outside

write_esc_square-KeepsParams :
    (con : Console) (c : ℕ)
    → length con.esc_param ≡ esc_param_max
    → con.curr_param_index ≤ esc_param_max
    → KeepsParams (write_esc_square con c)
unfolding write_esc_square
write_esc_square-KeepsParams con c full index =
    let i = con.curr_param_index in
    let param = get_or con.esc_param i 0 in
    let next : Console = record con { curr_param_index = i + 1 } in
    KeepsParams-if (leb b'0' c && leb c b'9') _ _
      (KeepsParams-if (ltb i (length con.esc_param) && ltb (param * 10 + c) int_bound) _ none
        (λ inside. (length-set con.esc_param i (param * 10 + c - b'0') ∙ full, index)) tt)
      (elim (Bool-cases ((c == b';') && ltb i esc_param_max)) [
        | inl passed ↦ rw passed (λ inside. (full, ground (arith, passed)))
        | inr command ↦ rw command (back_to_normal-KeepsParams (run_command next c))
      ])

-- The three states, with the state as an argument.
pub write_char_in-KeepsParams :
    (con : Console) (c : ℕ) (w : WriteState)
    → con.write_state ≡ w
    → HasParams con
    → KeepsParams (elim w [
      | normal ↦ some (write_normal con c)
      | esc ↦ some (write_esc con c)
      | square ↦ write_esc_square con c
    ])
write_char_in-KeepsParams con c normal state has = write_normal-HasParams con c state
write_char_in-KeepsParams con c esc state has = write_esc-HasParams con c
write_char_in-KeepsParams con c square state has =
    write_esc_square-KeepsParams con c (has state).0 (has state).1

pub set_style-params : (con : Console) (p : ℕ) → (set_style con p).esc_param ≡ con.esc_param
unfolding set_style
set_style-params con p = ground arith

-- One parameter too many: the source would read behind `esc_param`.
pub set_styles_faults :
    (con : Console) (i n : ℕ)
    → i ≤ length con.esc_param
    → length con.esc_param < i + n
    → set_styles con i n ≡ none
unfolding set_styles
set_styles_faults con i zero h k = absurd (omega arith)
set_styles_faults con i (suc n) h k =
    let styled = set_style con (get_or con.esc_param i 0) in
    let same : length styled.esc_param ≡ length con.esc_param =
      ap length (set_style-params con (get_or con.esc_param i 0)) in
    elim (Bool-cases (ltb i (length con.esc_param))) [
      | inl here ↦ rw here (set_styles_faults styled (i + 1) n (ground (arith, same)) (omega arith))
      | inr behind ↦ rw behind refl
    ]

write_char-square :
    (con : Console) (c : ℕ) → con.write_state ≡ square → write_char con c ≡ write_esc_square con c
unfolding write_char
write_char-square con c state =
    ap
      (λ w. elim w [
        | normal ↦ some (write_normal con c)
        | esc ↦ some (write_esc con c)
        | square ↦ write_esc_square con c
      ])
      state

digit_overruns :
    (con : Console) (c : ℕ)
    → con.curr_param_index ≡ length con.esc_param
    → b'0' ≤ c
    → c ≤ b'9'
    → write_esc_square con c ≡ none
unfolding write_esc_square
digit_overruns con c full low high =
    let digit : (leb b'0' c && leb c b'9') ≡ true = ground arith in
    let behind : ltb con.curr_param_index (length con.esc_param) ≡ false = ground arith in
    rw digit rw behind refl

style_overruns :
    (con : Console) → con.curr_param_index ≡ length con.esc_param → write_esc_square con b'm' ≡ none
unfolding write_esc_square run_command set_font_style
style_overruns con full =
    let next : Console = record con { curr_param_index = con.curr_param_index + 1 } in
    ap back_to_normal
      (set_styles_faults next 0 (con.curr_param_index + 1) (omega arith) (omega (arith, full)))

-- Inside `ESC [ …`, when each of the parameters has been passed by a `;`, a digit or the command
-- `m` accesses `esc_param` behind its end.
write_char-overruns :
    (con : Console) (c : ℕ)
    → con.write_state ≡ square
    → con.curr_param_index ≡ length con.esc_param
    → ((b'0' ≤ c) × (c ≤ b'9')) ⊎ (c ≡ b'm')
    → write_char con c ≡ none
write_char-overruns con c state full (inl (low, high)) =
    write_char-square con c state ∙ digit_overruns con c full low high
write_char-overruns con c state full (inr e) =
    write_char-square con c state ∙ ap (write_esc_square con) e ∙ style_overruns con full
