-- ===== src/Tty/Line.antt =====
-- `tty_read`: the room of the caller's buffer, the end of a line, and a line without editing.
use mathlib.Core.Bool.{false≢true}
use os_training.Base.{
  ap, ◌∙◌, ℕ, ◌+◌, ◌-◌, ◌≤◌, ◌<◌, ◌≡◌, ◌≢◌, refl, Bool, true, false, ◌&&◌, ◌||◌, ◌==◌, ltb, leb,
  if◌then◌else◌, arith, List, [], ◌∷◌, ◌++◌, length, length-append,
}
use os_training.Tty.{ReadResult, drop_last, store_char, read_loop, tty_read}

length-drop_last : (xs : List ℕ) → length (drop_last xs) ≡ length xs - 1
length-drop_last [] = refl
length-drop_last (x ∷ []) = refl
length-drop_last (x ∷ y ∷ xs) = ground (arith, length-drop_last (y ∷ xs))

-- A character is stored inside a buffer that has room for one.
length-store_char :
    (inlcr : Bool) (size : ℕ) (buf : List ℕ) (ch : ℕ)
    → length buf < size
    → length (store_char inlcr size buf ch) ≤ size
unfolding store_char
length-store_char inlcr size buf ch lt = ground (
  arith,
  length-drop_last buf,
  length-append buf (13 ∷ 10 ∷ []),
  length-append buf (10 ∷ []),
  length-append buf (ch ∷ []),
)

pick-Holds {ℓ} :
    {A : Type ℓ} (P : A → Type 0) (b : Bool) (x y : A)
    → (b ≡ true → P x)
    → (b ≡ false → P y)
    → P (if b then x else y)
pick-Holds P true x y p q = p refl
pick-Holds P false x y p q = q refl

-- The result of the loop fits the buffer, if what was there before did.
read_loop-fits :
    (inlcr echo : Bool) (size : ℕ) (buf echoed input : List ℕ)
    → length buf ≤ size
    → length (read_loop inlcr echo size buf echoed input).buf ≤ size
unfolding read_loop
read_loop-fits inlcr echo size buf echoed [] h = h
read_loop-fits inlcr echo size buf echoed (ch ∷ input) h =
    let stored = store_char inlcr size buf ch in
    let echoed' = if echo then echoed ++ ch ∷ [] else echoed in
    let fits : ReadResult → Type 0 = λ r. length r.buf ≤ size in
    pick-Holds fits (leb size (length buf)) _ _ (λ e. h)
      (λ more.
        let room : length buf < size = ground arith in
        let kept = length-store_char inlcr size buf ch room in
        pick-Holds fits ((ch == 0x7F) && (length buf == 0)) _ _
          (λ e. read_loop-fits inlcr echo size buf echoed input h)
          (λ e.
            pick-Holds fits ((ch == 13) || (ch == 10)) _ _ (λ l. kept)
              (λ l. read_loop-fits inlcr echo size stored echoed' input kept)))

-- Whatever is typed, and with any flags, `tty_read` stores no more than `size` characters.
pub tty_read-fits :
    (inlcr echo : Bool) (size : ℕ) (input : List ℕ)
    → length (tty_read inlcr echo size input).buf ≤ size
unfolding tty_read
tty_read-fits inlcr echo size input = read_loop-fits inlcr echo size [] [] input (omega arith)

-- The end of a line has been typed.
abbrev pub has_end : List ℕ → Bool
has_end [] = false
has_end (ch ∷ input) = if (ch == 13) || (ch == 10) then true else has_end input

read_loop-returns :
    (inlcr echo : Bool) (size : ℕ) (buf echoed input : List ℕ)
    → has_end input ≡ true
    → (read_loop inlcr echo size buf echoed input).done ≡ true
unfolding read_loop
read_loop-returns inlcr echo size buf echoed [] h = absurd (false≢true h)
read_loop-returns inlcr echo size buf echoed (ch ∷ input) h =
    let stored = store_char inlcr size buf ch in
    let echoed' = if echo then echoed ++ ch ∷ [] else echoed in
    let returned : ReadResult → Type 0 = λ r. r.done ≡ true in
    pick-Holds returned (leb size (length buf)) _ _ (λ e. refl)
      (λ more.
        pick-Holds returned ((ch == 0x7F) && (length buf == 0)) _ _
          (λ e. read_loop-returns inlcr echo size buf echoed input (ground arith))
          (λ e.
            pick-Holds returned ((ch == 13) || (ch == 10)) _ _ (λ l. refl)
              (λ l. read_loop-returns inlcr echo size stored echoed' input (ground arith))))

-- `tty_read` returns if a `\r` or a `\n` is among the characters that come.
pub tty_read-returns :
    (inlcr echo : Bool) (size : ℕ) (input : List ℕ)
    → has_end input ≡ true
    → (tty_read inlcr echo size input).done ≡ true
unfolding tty_read
tty_read-returns inlcr echo size input h = read_loop-returns inlcr echo size [] [] input h

-- None of the characters edits or ends the line.
abbrev pub IsPlain : List ℕ → Type 0
IsPlain [] = Unit
IsPlain (ch ∷ chs) = (ch ≢ 0x7F) × (ch ≢ 13) × (ch ≢ 10) × IsPlain chs

snoc-append : (buf : List ℕ) (ch : ℕ) (xs : List ℕ) → (buf ++ ch ∷ []) ++ xs ≡ buf ++ ch ∷ xs
snoc-append [] ch xs = refl
snoc-append (b ∷ buf) ch xs = ap (λ l. b ∷ l) (snoc-append buf ch xs)

-- What a line of plain characters leaves behind what is already in the buffer.
abbrev line_read : (buf line later : List ℕ) → ReadResult
line_read buf line later = record {
  buf = buf ++ (line ++ 13 ∷ 10 ∷ []);
  echoed = buf ++ (line ++ 10 ∷ []);
  left = later;
  done = true;
}

read_loop-line :
    (size : ℕ) (buf line later : List ℕ)
    → IsPlain line
    → length buf + length line + 2 ≤ size
    → read_loop true true size buf buf (line ++ 10 ∷ later) ≡ line_read buf line later
unfolding read_loop store_char
read_loop-line size buf [] later plain fits =
    let more : leb size (length buf) ≡ false = ground arith in
    let two : ltb (length buf) (size - 1) ≡ true = ground arith in rw (more, two) refl
read_loop-line size buf (ch ∷ line) later plain fits =
    let more : leb size (length buf) ≡ false = ground arith in
    let del : (ch == 0x7F) ≡ false = ground (arith, plain.0) in
    let cr : (ch == 13) ≡ false = ground (arith, plain.1) in
    let lf : (ch == 10) ≡ false = ground (arith, plain.2) in
    let room : length (buf ++ ch ∷ []) + length line + 2 ≤ size =
      omega (arith, length-append buf (ch ∷ [])) in
    rw (more, del, cr, lf)
      (read_loop-line size (buf ++ ch ∷ []) line later plain.3 room
        ∙ ap
            (λ b. record {
              buf = b;
              echoed = (buf ++ ch ∷ []) ++ (line ++ 10 ∷ []);
              left = later;
              done = true;
            })
            (snoc-append buf ch (line ++ 13 ∷ 10 ∷ []))
        ∙ ap
            (λ b. record {
              buf = buf ++ ch ∷ (line ++ 13 ∷ 10 ∷ []);
              echoed = b;
              left = later;
              done = true;
            })
            (snoc-append buf ch (line ++ 10 ∷ [])))

-- With both flags set, as `tty_open` sets them, a line without DEL, `\r` and `\n` that fits the
-- buffer with two characters more is read as it was typed, with `\r\n` for the `\n` at its end; it
-- is echoed as it was typed, and the characters behind it stay for the next call.
pub tty_read-line :
    (size : ℕ) (line later : List ℕ)
    → IsPlain line
    → length line + 2 ≤ size
    → tty_read true true size (line ++ 10 ∷ later)
      ≡ record { buf = line ++ 13 ∷ 10 ∷ []; echoed = line ++ 10 ∷ []; left = later; done = true }
unfolding tty_read
tty_read-line size line later plain fits = read_loop-line size [] line later plain (omega arith)
