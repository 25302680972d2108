-- ===== src/Keyboard.antt =====
-- source/kernel/dev/kbd.c: the keyboard interrupt, from scan codes to characters.
-- `do_handler_kbd` gets the status byte and the data byte of the controller as arguments. What it
-- does outside the driver is an event: a call of `tty_in` or of `tty_select`, or the update of the
-- lights. The bit fields of `kbd_state_t` are one bit wide, so they are Booleans.
pub mod Codes
use Prim.Native.Nat.{bit_and}
use os_training.Base.{
  ℕ, ◌+◌, ◌-◌, Bool, true, false, not, ◌&&◌, ◌||◌, ◌==◌, leb, if◌then◌else◌, List, [], ◌∷◌, get_or,
}

-- `key_map_t`
pub record KeyMap : Type 0 where
  pub normal : ℕ
  pub func : ℕ

abbrev key_map : ℕ → ℕ → KeyMap
key_map n f = record { normal = n; func = f }

-- The entries up to 0x39; the rest of the 256 are 0.
abbrev pub map_table : List KeyMap
map_table =
    key_map 0 0
    ∷ key_map 0 0
    ∷ key_map b'1' b'!'
    ∷ key_map b'2' b'@'
    ∷ key_map b'3' b'#'
    ∷ key_map b'4' b'$'
    ∷ key_map b'5' b'%'
    ∷ key_map b'6' b'^'
    ∷ key_map b'7' b'&'
    ∷ key_map b'8' b'*'
    ∷ key_map b'9' b'('
    ∷ key_map b'0' b')'
    ∷ key_map b'-' b'_'
    ∷ key_map b'=' b'+'
    ∷ key_map 0x7F 0x7F
    ∷ key_map 9 9
    ∷ key_map b'q' b'Q'
    ∷ key_map b'w' b'W'
    ∷ key_map b'e' b'E'
    ∷ key_map b'r' b'R'
    ∷ key_map b't' b'T'
    ∷ key_map b'y' b'Y'
    ∷ key_map b'u' b'U'
    ∷ key_map b'i' b'I'
    ∷ key_map b'o' b'O'
    ∷ key_map b'p' b'P'
    ∷ key_map b'[' b'{'
    ∷ key_map b']' b'}'
    ∷ key_map 10 10
    ∷ key_map 0 0
    ∷ key_map b'a' b'A'
    ∷ key_map b's' b'B'
    ∷ key_map b'd' b'D'
    ∷ key_map b'f' b'F'
    ∷ key_map b'g' b'G'
    ∷ key_map b'h' b'H'
    ∷ key_map b'j' b'J'
    ∷ key_map b'k' b'K'
    ∷ key_map b'l' b'L'
    ∷ key_map b';' b':'
    ∷ key_map 39 b'"'
    ∷ key_map b'`' b'~'
    ∷ key_map 0 0
    ∷ key_map 92 b'|'
    ∷ key_map b'z' b'Z'
    ∷ key_map b'x' b'X'
    ∷ key_map b'c' b'C'
    ∷ key_map b'v' b'V'
    ∷ key_map b'b' b'B'
    ∷ key_map b'n' b'N'
    ∷ key_map b'm' b'M'
    ∷ key_map b',' b'<'
    ∷ key_map b'.' b'>'
    ∷ key_map b'/' b'?'
    ∷ key_map 0 0
    ∷ key_map 0 0
    ∷ key_map 0 0
    ∷ key_map b' ' b' '
    ∷ []

-- `kbd_state_t`
pub record KbdState : Type 0 where
  pub caps_lock : Bool
  pub lshift_press : Bool
  pub rshift_press : Bool
  pub ralt_press : Bool
  pub lalt_press : Bool
  pub lctrl_press : Bool
  pub rctrl_press : Bool

-- `recv_state` of the handler.
pub data RecvState : Type 0 where
  plain begin_e0 begin_e1 : RecvState

-- What a scan code makes the driver call.
pub data Event : Type 0 where
  nothing : Event
  typed : ℕ → Event
  selected : ℕ → Event
  lights : Event

pub record Kbd : Type 0 where
  pub keys : KbdState
  pub recv_state : RecvState

abbrev pub get_key : ℕ → ℕ
get_key key_code = bit_and key_code 0x7F

abbrev pub is_make_code : ℕ → Bool
is_make_code key_code = bit_and key_code 0x80 == 0

abbrev pub do_fx_key : KbdState → ℕ → Event
do_fx_key s key = if s.lctrl_press || s.rctrl_press then selected (key - 0x3B) else nothing

-- The character of a key, with shift and the caps lock.
abbrev pub key_char : KbdState → ℕ → ℕ
key_char s key =
    let entry = get_or map_table key (key_map 0 0) in
    let c = if s.rshift_press || s.lshift_press then entry.func else entry.normal in
    if s.caps_lock
    then (if leb b'A' c && leb c b'Z'
        then c - b'A' + b'a'
        else if leb b'a' c && leb c b'z'
        then c - b'a' + b'A'
        else c)
    else c

-- The keys of `do_normal_key` that set a flag: RSHIFT, LSHIFT, ALT and CTRL; then CAPS, F1 to F8,
-- and the others.
unfoldable pub do_normal_key : KbdState → ℕ → KbdState × Event
do_normal_key s raw_code =
    let key = get_key raw_code in
    let is_make = is_make_code raw_code in
    if key == 0x36
    then (record s { rshift_press = is_make }, nothing)
    else if key == 0x2A
    then (record s { lshift_press = is_make }, nothing)
    else if key == 0x3A
    then (if is_make then (record s { caps_lock = not s.caps_lock }, lights) else (s, nothing))
    else if key == 0x38
    then (record s { lalt_press = is_make }, nothing)
    else if key == 0x1D
    then (record s { lctrl_press = is_make }, nothing)
    else if leb 0x3B key && leb key 0x42
    then (s, do_fx_key s key)
    else if is_make
    then (s, typed (key_char s key))
    else (s, nothing)

unfoldable pub do_e0_key : KbdState → ℕ → KbdState
do_e0_key s raw_code =
    let key = get_key raw_code in
    let is_make = is_make_code raw_code in
    if key == 0x1D
    then record s { rctrl_press = is_make }
    else if key == 0x38
    then record s { ralt_press = is_make }
    else s

abbrev normal_step : Kbd → ℕ → Kbd × Event
normal_step k raw_code =
    let (s, e) = do_normal_key k.keys raw_code in (record { keys = s; recv_state = plain }, e)

-- The `switch` on `recv_state`.
abbrev pub switch_state : RecvState → Kbd → ℕ → Kbd × Event
switch_state plain k raw_code = normal_step k raw_code
switch_state begin_e0 k raw_code =
    (record { keys = do_e0_key k.keys raw_code; recv_state = plain }, nothing)
switch_state begin_e1 k raw_code = (record k { recv_state = plain }, nothing)

unfoldable pub do_handler_kbd : Kbd → (status raw_code : ℕ) → Kbd × Event
do_handler_kbd k status raw_code =
    let e0 : Kbd × Event = (record k { recv_state = begin_e0 }, nothing) in
    let e1 : Kbd × Event = (record k { recv_state = begin_e1 }, nothing) in
    if bit_and status 1 == 0
    then (k, nothing)
    else if raw_code == 0xE0
    then e0
    else if raw_code == 0xE1
    then e1
    else switch_state k.recv_state k raw_code
