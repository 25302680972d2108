-- ===== src/Tty/Ring.antt =====
-- The ring buffer as the queue of the characters that it holds.
use os_training.Base.{
  ℕ, zero, suc, ◌+◌, ◌-◌, ◌≤◌, ◌<◌, ◌≡◌, refl, true, false, ◌==◌, leb, if◌then◌else◌, arith, ap,
  sym, ◌∙◌, Option, none, some, List, [], ◌∷◌, ◌++◌, length, length-append, length-set, get_or,
  get_or-set, set, Bool-cases, ==_iff, ◌≢◌, inl, inr,
}
use mathlib.Core.Path.{subst}
use os_training.LinkedList.Chain.{ne→==_false}
use os_training.Tty.{Fifo, wrap, tty_fifo_init, tty_fifo_get, tty_fifo_put}

-- The place of the entry `i` of the queue.
abbrev pub place : Fifo → ℕ → ℕ
place f i = if leb f.size (f.read + i) then f.read + i - f.size else f.read + i

-- The queue holds the characters `xs`, the oldest first.
pub record Holds (f : Fifo) (xs : List ℕ) : Type 0 where
  pub counted : f.count ≡ length xs
  pub fits : f.count ≤ f.size
  pub room : length f.buf ≡ f.size
  pub reads : f.read < f.size
  pub writes : f.write ≡ place f f.count
  pub entries : (i : ℕ) → i < length xs → get_or f.buf (place f i) 0 ≡ get_or xs i 0

get_or-snoc :
    (xs : List ℕ) (c i : ℕ)
    → get_or (xs ++ c ∷ []) i 0 ≡ (if i == length xs then c else get_or xs i 0)
get_or-snoc [] c zero = refl
get_or-snoc [] c (suc i) = ground arith
get_or-snoc (x ∷ xs) c zero = ground arith
get_or-snoc (x ∷ xs) c (suc i) = ground (arith, get_or-snoc xs c i)

-- `tty_fifo_init` gives the empty queue.
pub tty_fifo_init-Holds :
    (buf : List ℕ) (size : ℕ) → length buf ≡ size → 0 < size → Holds (tty_fifo_init buf size) []
unfolding tty_fifo_init
tty_fifo_init-Holds buf size e h = record {
  counted = refl;
  fits = omega arith;
  room = e;
  reads = h;
  writes = ground arith;
  entries = λ i lt. absurd (omega arith);
}

-- The places that are in use differ from the one that is written.
after_put :
    (f : Fifo) (xs : List ℕ) (c i : ℕ)
    → Holds f xs
    → length xs < f.size
    → i ≤ length xs
    → (if f.write == place f i then c else get_or f.buf (place f i) 0)
      ≡ (if i == length xs then c else get_or xs i 0)
after_put f xs c i h lt le = elim (Bool-cases (i == length xs)) [
  | inl last ↦
      let e : f.write ≡ place f i = ground (arith, h.writes, h.counted) in
      let test : (f.write == place f i) ≡ true = (==_iff f.write (place f i)).1 e in
      rw (last, test) refl
  | inr before ↦
      let il : i < length xs = ground arith in
      let ne : f.write ≢ place f i = λ e. ground (arith, h.writes, h.counted, h.reads) in
      rw (before, ne→==_false f.write (place f i) ne) (h.entries i il)
]

-- `tty_fifo_put` adds a character behind the others, or fails if the queue is full.
pub tty_fifo_put-Holds :
    (f : Fifo) (xs : List ℕ) (c : ℕ)
    → Holds f xs
    → length xs < f.size
    → (f' : Fifo) × (tty_fifo_put f c ≡ some f') × Holds f' (xs ++ c ∷ []) × (f'.size ≡ f.size)
unfolding tty_fifo_put
tty_fifo_put-Holds f xs c h lt =
    let longer : Fifo = record f {
      buf = set f.buf f.write c;
      write = wrap f.size f.write;
      count = f.count + 1;
    } in
    let written : f.write < length f.buf = ground (arith, h.writes, h.room, h.reads, h.counted) in
    let more : leb f.size f.count ≡ false = ground (arith, h.counted) in
    (
      longer,
      rw more refl,
      record {
        counted = omega (arith, h.counted, length-append xs (c ∷ []));
        fits = omega (arith, h.counted);
        room = length-set f.buf f.write c ∙ h.room;
        reads = h.reads;
        writes = ground (arith, h.counted, h.writes, h.reads);
        entries = λ i l.
            let inside : i ≤ length xs = omega (arith, length-append xs (c ∷ [])) in
            get_or-set f.buf f.write (place f i) c 0 written
            ∙ after_put f xs c i h lt inside
            ∙ sym (get_or-snoc xs c i);
      },
      refl,
    )

-- `tty_fifo_get` takes the oldest character out, or fails if there is none.
pub tty_fifo_get-Holds :
    (f : Fifo) (x : ℕ) (xs : List ℕ)
    → Holds f (x ∷ xs)
    → (f' : Fifo) × (tty_fifo_get f ≡ some (x, f')) × Holds f' xs × (f'.size ≡ f.size)
unfolding tty_fifo_get
tty_fifo_get-Holds f x xs h =
    let rest : Fifo = record f { read = wrap f.size f.read; count = f.count - 1 } in
    let start : place f 0 ≡ f.read = ground (arith, h.reads) in
    let shift : (i : ℕ) → i < f.count → place rest i ≡ place f (suc i) =
      λ i lt. ground (arith, h.reads, h.fits) in
    let some_left : leb f.count 0 ≡ false = ground (arith, h.counted) in
    let first : get_or f.buf f.read 0 ≡ x =
      ap (λ p. get_or f.buf p 0) (sym start) ∙ h.entries 0 (omega arith) in
    (
      rest,
      rw some_left (ap (λ c. some (c, rest)) first),
      record {
        counted = omega (arith, h.counted);
        fits = omega (arith, h.counted, h.fits);
        room = h.room;
        reads = ground (arith, h.reads);
        writes =
            h.writes
            ∙ ap (place f) (omega (arith, h.counted))
            ∙ sym (shift (f.count - 1) (omega (arith, h.counted)));
        entries = λ i l.
            ap (λ p. get_or f.buf p 0) (shift i (omega (arith, h.counted)))
            ∙ h.entries (suc i) (omega arith);
      },
      refl,
    )

-- What `tty_fifo_put` gives on a queue that holds `xs`.
pub data PutResult (f : Fifo) (xs : List ℕ) (c : ℕ) : Option Fifo → Type 0 where
  stored :
      (f' : Fifo)
      → length xs < f.size
      → Holds f' (xs ++ c ∷ [])
      → f'.size ≡ f.size
      → PutResult f xs c (some f')
  full : length xs ≡ f.size → PutResult f xs c none

-- On a ring buffer that holds the characters `xs`, `tty_fifo_put` stores the character behind
-- them, and fails only if there are as many as the buffer has places.
pub tty_fifo_put-PutResult :
    (f : Fifo) (xs : List ℕ) (c : ℕ) → Holds f xs → PutResult f xs c (tty_fifo_put f c)
unfolding tty_fifo_put
tty_fifo_put-PutResult f xs c h = elim (Bool-cases (leb f.size f.count)) [
  | inl no_room ↦ rw no_room (full (ground (arith, h.counted, h.fits)))
  | inr more ↦
      let lt : length xs < f.size = ground (arith, h.counted) in
      let (f', e, held, same) = tty_fifo_put-Holds f xs c h lt in
      subst (PutResult f xs c) (sym e) (stored f' lt held same)
]

-- What `tty_fifo_get` gives on a queue that holds `xs`.
pub data GetResult (f : Fifo) : List ℕ → Option (ℕ × Fifo) → Type 0 where
  got :
      (x : ℕ) (xs : List ℕ) (f' : Fifo)
      → Holds f' xs
      → f'.size ≡ f.size
      → GetResult f (x ∷ xs) (some (x, f'))
  empty : GetResult f [] none

-- On a ring buffer that holds the characters `xs`, `tty_fifo_get` takes the oldest one and leaves
-- the others in their order, and fails only if there is none.
pub tty_fifo_get-GetResult : (f : Fifo) (xs : List ℕ) → Holds f xs → GetResult f xs (tty_fifo_get f)
unfolding tty_fifo_get
tty_fifo_get-GetResult f [] h =
    let nothing : leb f.count 0 ≡ true = ground (arith, h.counted) in rw nothing empty
tty_fifo_get-GetResult f (x ∷ xs) h =
    let (f', e, held, same) = tty_fifo_get-Holds f x xs h in
    subst (GetResult f (x ∷ xs)) (sym e) (got x xs f' held same)
