-- ===== src/Tty/Input.antt =====
-- The input queue and its semaphore, as the keyboard interrupt fills them.
use os_training.Base.{
  ℕ, ◌≡◌, true, false, ltb, leb, if◌then◌else◌, arith, ap, List, [], ◌∷◌, ◌++◌, length, Option,
  none, some, Bool-cases, inl, inr,
}
use os_training.Ipc.{Kernel}
use os_training.Ipc.Refinement.{AtSem, notify_view, sem_notify-refines}
use os_training.Tty.{Fifo, Tty, tty_ibuf_size, at_least, tty_in}
use os_training.Tty.Ring.{Holds, PutResult, stored, full, tty_fifo_put-PutResult}

-- A queue of the size of the input buffer takes the character if it has room.
kept_or_dropped :
    (f : Fifo) (xs : List ℕ) (c : ℕ) {o : Option Fifo}
    → f.size ≡ tty_ibuf_size
    → Holds f xs
    → PutResult f xs c o
    → Holds
        (elim o [ none ↦ f | some f' ↦ f' ])
        (if ltb (length xs) tty_ibuf_size then xs ++ c ∷ [] else xs)
kept_or_dropped f xs c size h (stored f' lt held same) =
    let more : ltb (length xs) tty_ibuf_size ≡ true = ground arith in rw more held
kept_or_dropped f xs c size h (full e) =
    let no_room : ltb (length xs) tty_ibuf_size ≡ false = ground arith in rw no_room h

-- With `n` units counted in the input semaphore and the characters `xs` in the input queue of 512,
-- `tty_in` notifies the semaphore if `n` is less than 512, and else changes nothing; when it
-- notifies, the character goes behind the others, but is dropped if the queue is full.
pub tty_in-refines :
    (idle : ℕ) (k : Kernel) (t : Tty) (ch : ℕ) (rs ss ws xs : List ℕ) (n : ℕ)
    → AtSem idle k t.isem ss (record { ready = rs; waiters = ws; units = n })
    → Holds t.ififo xs
    → t.ififo.size ≡ tty_ibuf_size
    → let (k', t') = tty_in k t ch in
      AtSem idle k' t'.isem ss (
        if leb tty_ibuf_size n
        then record { ready = rs; waiters = ws; units = n }
        else notify_view rs ws n)
      × Holds t'.ififo (
          if leb tty_ibuf_size n
          then xs
          else if ltb (length xs) tty_ibuf_size
          then xs ++ ch ∷ []
          else xs)
unfolding tty_in
tty_in-refines idle k t ch rs ss ws xs n is h size =
    let test : at_least t.isem.count tty_ibuf_size ≡ leb tty_ibuf_size n =
      ap (λ c. at_least c tty_ibuf_size) is.sem.counted in
    elim (Bool-cases (leb tty_ibuf_size n)) [
      | inl enough ↦ rw (test, enough) (is, h)
      | inr room ↦
          rw (test, room)
            (
              sem_notify-refines idle k t.isem ss rs ws n is,
              kept_or_dropped t.ififo xs ch size h (tty_fifo_put-PutResult t.ififo xs ch h),
            )
    ]
