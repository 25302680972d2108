-- ===== src/Keyboard/Codes.antt =====
-- What a scan code can do: releases, and the sequences that begin with E0 and E1.
use Prim.Native.Nat.{bit_and}
use os_training.Base.{
  ℕ, ◌≡◌, ◌≢◌, refl, Bool, true, false, ◌==◌, leb, ◌||◌, ◌&&◌, if◌then◌else◌, arith, Bool-cases,
  inl, inr, List, [], ◌∷◌,
}
use os_training.Keyboard.{
  Kbd, KbdState, RecvState, plain, begin_e0, begin_e1, Event, nothing, typed, selected, lights,
  is_make_code, get_key, do_fx_key, switch_state, do_normal_key, do_e0_key, do_handler_kbd,
}

-- The event hands no character to the terminal and changes no light.
abbrev pub IsSilent : Event → Type 0
IsSilent nothing = Unit
IsSilent (typed c) = ⊥
IsSilent (selected i) = Unit
IsSilent lights = ⊥

IsSilent-if :
    (b : Bool) (x y : KbdState × Event)
    → IsSilent x.1
    → IsSilent y.1
    → IsSilent (if b then x else y).1
IsSilent-if true x y p q = p
IsSilent-if false x y p q = q

do_fx_key-IsSilent : (s : KbdState) (key : ℕ) → IsSilent (do_fx_key s key)
do_fx_key-IsSilent s key = elim (Bool-cases (s.lctrl_press || s.rctrl_press)) [
  | inl ctrl ↦ rw ctrl tt
  | inr no_ctrl ↦ rw no_ctrl tt
]

do_normal_key-IsSilent :
    (s : KbdState) (raw_code : ℕ)
    → is_make_code raw_code ≡ false
    → IsSilent (do_normal_key s raw_code).1
unfolding do_normal_key
do_normal_key-IsSilent s raw_code release =
    let key = get_key raw_code in
    rw release (
      IsSilent-if (key == 0x36) _ _ tt (
        IsSilent-if (key == 0x2A) _ _ tt (
          IsSilent-if (key == 0x3A) _ _ tt (
            IsSilent-if (key == 0x38) _ _ tt (
              IsSilent-if (key == 0x1D) _ _ tt
                (IsSilent-if (leb 0x3B key && leb key 0x42) _ _ (do_fx_key-IsSilent s key) tt))))))

-- The handler in each of its states.
handled-IsSilent :
    (k : Kbd) (raw_code : ℕ) (r : RecvState)
    → is_make_code raw_code ≡ false
    → IsSilent (switch_state r k raw_code).1
handled-IsSilent k raw_code plain release = do_normal_key-IsSilent k.keys raw_code release
handled-IsSilent k raw_code begin_e0 release = tt
handled-IsSilent k raw_code begin_e1 release = tt

IsSilent-pick :
    (b : Bool) (x y : Kbd × Event) → IsSilent x.1 → IsSilent y.1 → IsSilent (if b then x else y).1
IsSilent-pick true x y p q = p
IsSilent-pick false x y p q = q

-- The release of a key, in any state of the driver, hands no character to the terminal and leaves
-- the lights alone.
do_handler_kbd-release :
    (k : Kbd) (status raw_code : ℕ)
    → is_make_code raw_code ≡ false
    → IsSilent (do_handler_kbd k status raw_code).1
unfolding do_handler_kbd
do_handler_kbd-release k status raw_code release = IsSilent-pick (bit_and status 1 == 0) _ _ tt (
    IsSilent-pick (raw_code == 0xE0) _ _ tt
      (IsSilent-pick (raw_code == 0xE1) _ _ tt (handled-IsSilent k raw_code k.recv_state release)))

-- The driver on a sequence of scan codes, all of them ready.
pub scan : Kbd → List ℕ → Kbd × List Event
scan k [] = (k, [])
scan k (c ∷ cs) = let (k', e) = do_handler_kbd k 1 c in let (k'', es) = scan k' cs in (k'', e ∷ es)

-- For a code that is neither E0 nor E1: E1 and that code behind it change no key state, and E0 and
-- that code behind it do what `do_e0_key` says; neither calls anything, and the driver is then in
-- its normal state, whatever state it was in before.
pub scan-prefixed :
    (k : Kbd) (c : ℕ)
    → c ≢ 0xE0
    → c ≢ 0xE1
    → (scan k (0xE1 ∷ c ∷ []) ≡ (record k { recv_state = plain }, nothing ∷ nothing ∷ []))
      × (scan k (0xE0 ∷ c ∷ [])
          ≡ (record { keys = do_e0_key k.keys c; recv_state = plain }, nothing ∷ nothing ∷ []))
unfolding scan do_handler_kbd
scan-prefixed k c n0 n1 =
    let t0 : (c == 0xE0) ≡ false = ground (arith, n0) in
    let t1 : (c == 0xE1) ≡ false = ground (arith, n1) in rw (t0, t1) (refl, refl)
