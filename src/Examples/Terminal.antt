-- ===== src/Examples/Terminal.antt =====
-- Queues of four characters and of 512, lines that are typed, and scan codes.
use os_training.Base.{
  ℕ, zero, suc, ◌<◌, ◌≡◌, refl, ltb, leb, if◌then◌else◌, arith, true, false, List, [], ◌∷◌, length,
  replicate, length-replicate, get_or,
}
use os_training.Ipc.Refinement.{AtSem, notify_view}
use os_training.Tty.{Fifo, Tty, tty_fifo_init, tty_in, tty_read}
use os_training.Tty.Ring.{Holds, place, tty_fifo_init-Holds}
use os_training.Tty.Input.{tty_in-refines}
use os_training.Tty.Line.{tty_read-line, tty_read-returns}
use os_training.Keyboard.{Kbd, plain}
use os_training.Examples.Locks.{kernel, sem, sem-AtSem, ready, asleep}

-- Two characters, `a` and `b`, which stand in the last entry and in the first one.
abbrev wrapped : Fifo
wrapped = record { buf = b'b' ∷ 0 ∷ 0 ∷ b'a' ∷ []; size = 4; read = 3; write = 1; count = 2 }

abbrev chars : List ℕ
chars = b'a' ∷ b'b' ∷ []

wrapped-Holds : Holds wrapped chars
wrapped-Holds = record {
  counted = refl;
  fits = omega arith;
  room = refl;
  reads = omega arith;
  writes = refl;
  entries = entries;
}
  where
    entries : (i : ℕ) → i < length chars → get_or wrapped.buf (place wrapped i) 0 ≡ get_or chars i 0
    entries zero lt = refl
    entries (suc zero) lt = refl
    entries (suc (suc i)) lt = absurd (omega (arith, lt))

abbrev ibuf : List ℕ
ibuf = replicate 512 0

abbrev tty : Tty
tty = record {
  ififo = record { buf = ibuf; size = 512; read = 0; write = 0; count = 0 };
  isem = sem;
}

tty-Holds : Holds tty.ififo []
unfolding tty_fifo_init
tty-Holds = tty_fifo_init-Holds ibuf 512 (length-replicate {A = ℕ} 512 0) (omega arith)

-- Task 20 reads and wakes up.
tty_in-refines_example :
    let (k', t') = tty_in kernel tty b'x' in
    AtSem 100 k' t'.isem asleep (
      if leb 512 0
      then record { ready = ready; waiters = 20 ∷ []; units = 0 }
      else notify_view ready (20 ∷ []) 0)
    × Holds t'.ififo
        (if leb 512 0 then [] else if ltb (length {A = ℕ} []) 512 then b'x' ∷ [] else [])
tty_in-refines_example =
    tty_in-refines 100 kernel tty b'x' ready asleep (20 ∷ []) [] 0 sem-AtSem tty-Holds refl

tty_read-line_example : tty_read true true 80 (b'l' ∷ b's' ∷ 10 ∷ b'x' ∷ []) ≡ record {
  buf = b'l' ∷ b's' ∷ 13 ∷ 10 ∷ [];
  echoed = b'l' ∷ b's' ∷ 10 ∷ [];
  left = b'x' ∷ [];
  done = true;
}
tty_read-line_example =
    tty_read-line 80 (b'l' ∷ b's' ∷ []) (b'x' ∷ [])
      (
        λ e. omega (arith, e),
        λ e. omega (arith, e),
        λ e. omega (arith, e),
        (λ e. omega (arith, e), λ e. omega (arith, e), λ e. omega (arith, e), tt),
      )
      (omega arith)

tty_read-returns_example : (tty_read true false 80 (b'l' ∷ 0x7F ∷ 10 ∷ [])).done ≡ true
tty_read-returns_example = tty_read-returns true false 80 (b'l' ∷ 0x7F ∷ 10 ∷ []) refl

-- No key is pressed.
abbrev kbd : Kbd
kbd = record {
  keys = record {
    caps_lock = false;
    lshift_press = false;
    rshift_press = false;
    ralt_press = false;
    lalt_press = false;
    lctrl_press = false;
    rctrl_press = false;
  };
  recv_state = plain;
}
