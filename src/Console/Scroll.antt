-- ===== src/Console/Scroll.antt =====
-- What the loops over the display memory write, and what a scroll by one line leaves.
use os_training.Base.{
  ℕ, zero, suc, ◌+◌, ◌-◌, ◌*◌, ◌<◌, ◌≡◌, ap, ◌∙◌, ◌&&◌, ltb, leb, if◌then◌else◌, arith,
}
use native.Mathlib.Nat.{mul_comm}
use os_training.Console.Display.{
  Console, DispChar, blank, put_cell, fill, copy_down, erase_rows, scroll_up,
}

pub fill-eq :
    (d : ℕ → DispChar) (p : ℕ) (v : DispChar) (n i : ℕ)
    → fill d p v n i ≡ (if leb p i && ltb i (p + n) then v else d i)
unfolding fill
fill-eq d p v zero i = ground arith
fill-eq d p v (suc n) i = ground (arith, fill-eq (put_cell d p v) (p + 1) v n i)

-- The copy reads each cell before it overwrites it, as the source lies behind the target.
pub copy_down-eq :
    (d : ℕ → DispChar) (p off n i : ℕ)
    → 0 < off
    → copy_down d p off n i ≡ (if leb p i && ltb i (p + n) then d (i + off) else d i)
unfolding copy_down
copy_down-eq d p off zero i h = ground arith
copy_down-eq d p off (suc n) i h =
    ground (arith, copy_down-eq (put_cell d p (d (p + off))) (p + 1) off n i h)

erase_rows-eq :
    (con : Console) (start last i : ℕ)
    → (erase_rows con start last).disp i ≡ (
        if leb (con.display_cols * start) i
          && ltb i (
              con.display_cols * start + (con.display_cols * (last + 1) - con.display_cols * start))
        then blank con
        else con.disp i)
unfolding erase_rows
erase_rows-eq con start last i =
    fill-eq con.disp (con.display_cols * start) (blank con)
      (con.display_cols * (last + 1) - con.display_cols * start) i

-- Erasing the rows from 0 to the last one blanks the screen and nothing behind it.
pub erase_screen-eq :
    (con : Console) (r i : ℕ)
    → con.display_rows ≡ suc r
    → (erase_rows con 0 (con.display_rows - 1)).disp i
      ≡ (if ltb i (con.display_rows * con.display_cols) then blank con else con.disp i)
erase_screen-eq con r i e =
    let last : con.display_rows - 1 + 1 ≡ con.display_rows = omega arith in
    let size : con.display_cols * (con.display_rows - 1 + 1) ≡ con.display_rows * con.display_cols =
      ap (λ n. con.display_cols * n) last ∙ mul_comm con.display_cols con.display_rows in
    ground (arith, erase_rows-eq con 0 (con.display_rows - 1) i)

-- On a screen with at least one row and one column, a scroll by one line moves each row up, blanks
-- the last one, and writes nothing behind the screen.
pub scroll_up-eq :
    (con : Console) (r i : ℕ)
    → con.display_rows ≡ suc r
    → 0 < con.display_cols
    → (scroll_up con 1).disp i ≡ (
        if ltb i (r * con.display_cols)
        then con.disp (i + con.display_cols)
        else if ltb i (con.display_rows * con.display_cols)
        then blank con
        else con.disp i)
unfolding scroll_up
scroll_up-eq con r i e h =
    let cols = con.display_cols in
    let front = r * cols in
    let last : con.display_rows - 1 ≡ r = omega arith in
    let e1 : cols * 1 ≡ cols = omega arith in
    let e2 : (con.display_rows - 1) * cols ≡ front = ap (λ n. n * cols) last in
    let e3 : cols * (con.display_rows - 1) ≡ front = ap (λ n. cols * n) last ∙ mul_comm cols r in
    let e4 : cols * (con.display_rows - 1 + 1) ≡ front + cols =
      ap (λ n. cols * (n + 1)) last ∙ omega arith in
    let e5 : con.display_rows * cols ≡ front + cols = ap (λ n. n * cols) e ∙ omega arith in
    let d = copy_down con.disp 0 cols front in
    rw (e1, e2, e3, e4, e5)
      (ground (
        arith,
        fill-eq d front (blank con) (front + cols - front) i,
        copy_down-eq con.disp 0 cols front i h,
      ))
