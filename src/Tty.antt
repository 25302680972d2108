-- ===== src/Tty.antt =====
-- source/kernel/dev/tty.c: the byte queues of a terminal, the input that the keyboard driver
-- feeds, and the line editing of `tty_read`.
-- The two queues and the input semaphore stand beside the scheduler of the kernel. `tty_read`
-- takes the characters one by one as they come; its input here is the list of those characters,
-- in the order in which they leave the input queue; the terminal is open, and the size is not
-- negative.
pub mod Ring
pub mod Input
pub mod Line
use os_training.Base.{
  ℕ, zero, suc, ◌+◌, ◌-◌, ◌≤◌, ◌<◌, ℤ, pos, negsuc, Bool, true, false, ◌&&◌, ◌||◌, ◌==◌, ltb, leb,
  if◌then◌else◌, Option, none, some, List, [], ◌∷◌, ◌++◌, length, get_or, set,
}
use os_training.Ipc.{Kernel, Sem, sem_notify, sem_count}

abbrev pub tty_ibuf_size : ℕ
tty_ibuf_size = 512

-- `tty_fifo_t`
pub record Fifo : Type 0 where
  pub buf : List ℕ
  pub size : ℕ
  pub read : ℕ
  pub write : ℕ
  pub count : ℕ

unfoldable pub tty_fifo_init : List ℕ → ℕ → Fifo
tty_fifo_init buf size = record { buf = buf; size = size; read = 0; write = 0; count = 0 }

-- The index behind `i`, which starts again at the end of the buffer.
abbrev pub wrap : (size i : ℕ) → ℕ
wrap size i = if leb size (i + 1) then 0 else i + 1

-- The character and the queue that is left; `none` is -1.
unfoldable pub tty_fifo_get : Fifo → Option (ℕ × Fifo)
tty_fifo_get f =
    let rest : Fifo = record f { read = wrap f.size f.read; count = f.count - 1 } in
    if leb f.count 0 then none else some (get_or f.buf f.read 0, rest)

unfoldable pub tty_fifo_put : Fifo → ℕ → Option Fifo
tty_fifo_put f c =
    let longer : Fifo = record f {
      buf = set f.buf f.write c;
      write = wrap f.size f.write;
      count = f.count + 1;
    } in
    if leb f.size f.count then none else some longer

-- The input side of `tty_t`.
pub record Tty : Type 0 where
  pub ififo : Fifo
  pub isem : Sem

-- `n >= m`
abbrev pub at_least : ℤ → ℕ → Bool
at_least (pos n) m = leb m n
at_least (negsuc n) m = false

-- What `tty_fifo_put` leaves when the caller does not look at its result.
abbrev pub put_or_drop : Fifo → ℕ → Fifo
put_or_drop f c = elim (tty_fifo_put f c) [ none ↦ f | some f' ↦ f' ]

unfoldable pub tty_in : Kernel → Tty → ℕ → Kernel × Tty
tty_in k t ch =
    let (k', s) = sem_notify k t.isem in
    if at_least (sem_count t.isem) tty_ibuf_size
    then (k, t)
    else (k', record { ififo = put_or_drop t.ififo ch; isem = s })

-- What `tty_read` has when it returns or when it waits: the characters in the caller's buffer up
-- to `len`, the characters that it echoed, those that are left in the queue, and whether it
-- returned.
pub record ReadResult : Type 0 where
  pub buf : List ℕ
  pub echoed : List ℕ
  pub left : List ℕ
  pub done : Bool

-- The buffer without its last character: `len--; pbuf--`.
abbrev pub drop_last : List ℕ → List ℕ
drop_last [] = []
drop_last (x ∷ []) = []
drop_last (x ∷ y ∷ xs) = x ∷ drop_last (y ∷ xs)

-- The buffer after the character `ch` is stored, for a buffer of `size`.
unfoldable pub store_char : (inlcr : Bool) → (size : ℕ) → List ℕ → ℕ → List ℕ
store_char inlcr size buf ch =
    if ch == 0x7F
    then drop_last buf
    else if ch == 10
    then (if inlcr && ltb (length buf) (size - 1) then buf ++ 13 ∷ 10 ∷ [] else buf ++ 10 ∷ [])
    else buf ++ ch ∷ []

-- The loop of `tty_read`, on the characters that come; `inlcr` and `echo` are the input flags.
unfoldable pub read_loop :
    (inlcr echo : Bool) → (size : ℕ) → (buf echoed input : List ℕ) → ReadResult
read_loop inlcr echo size buf echoed [] = record {
  buf = buf;
  echoed = echoed;
  left = [];
  done = leb size (length buf);
}
read_loop inlcr echo size buf echoed (ch ∷ input) =
    let stored = store_char inlcr size buf ch in
    let echoed' = if echo then echoed ++ ch ∷ [] else echoed in
    let skip = read_loop inlcr echo size buf echoed input in
    let rest = read_loop inlcr echo size stored echoed' input in
    if leb size (length buf)
    then record { buf = buf; echoed = echoed; left = ch ∷ input; done = true }
    else if (ch == 0x7F) && (length buf == 0)
    then skip
    else if (ch == 13) || (ch == 10)
    then record { buf = stored; echoed = echoed'; left = input; done = true }
    else rest

unfoldable pub tty_read : (inlcr echo : Bool) → (size : ℕ) → (input : List ℕ) → ReadResult
tty_read inlcr echo size input = read_loop inlcr echo size [] [] input
