-- ===== src/Fat/Name.antt =====
-- The short names of directory entries: `to_sfn`, `diritem_name_match`, `diritem_get_name`.
-- A string is the list of its bytes without the 0 at its end.
use os_training.Base.{
  ℕ, zero, suc, ◌+◌, ◌-◌, Bool, true, false, ◌&&◌, ◌==◌, ltb, leb, if◌then◌else◌, Option, none,
  some, List, [], ◌∷◌, set, replicate,
}

abbrev pub sfn_len : ℕ
sfn_len = 11

-- `c - 'a' + 'A'` for a small letter.
abbrev pub to_upper : ℕ → ℕ
to_upper c = if leb 97 c && leb c 122 then c - 97 + 65 else c

-- The loop of `to_sfn`; `curr` is the index of the next byte in `dest`.
unfoldable pub to_sfn_loop : (src dest : List ℕ) → (curr : ℕ) → List ℕ
to_sfn_loop [] dest curr = dest
to_sfn_loop (c ∷ src) dest curr =
    let extension = to_sfn_loop src dest 8 in
    let more = to_sfn_loop src (set dest curr (to_upper c)) (curr + 1) in
    if ltb curr sfn_len then (if c == 46 then extension else more) else dest

unfoldable pub to_sfn : (src : List ℕ) → List ℕ
to_sfn src = to_sfn_loop src (replicate sfn_len 32) 0

-- `kernel_memcmp(…) == 0` over `n` bytes.
unfoldable pub same_bytes : (n : ℕ) → List ℕ → List ℕ → Bool
same_bytes zero d1 d2 = true
same_bytes (suc n) [] d2 = true
same_bytes (suc n) (x ∷ d1) [] = true
same_bytes (suc n) (x ∷ d1) (y ∷ d2) =
    let rest = same_bytes n d1 d2 in if x == y then rest else false

-- The variables of `diritem_get_name`: the memory that `dest` points to, and the indices of `c`
-- and `ext` in it.
pub record NameBuffer : Type 0 where
  pub dest : ℕ → ℕ
  pub c : ℕ
  pub ext : Option ℕ

abbrev pub put_byte : (ℕ → ℕ) → (i v : ℕ) → ℕ → ℕ
put_byte dest i v j = if j == i then v else dest j

abbrev pub push : ℕ → NameBuffer → NameBuffer
push v b = record b { dest = put_byte b.dest b.c v; c = b.c + 1 }

-- The body of the loop for the byte `x` of `DIR_Name`.
abbrev pub get_name_step : (i x : ℕ) → NameBuffer → NameBuffer
get_name_step i x b =
    let copied = if x == 32 then b else push x b in
    let dotted = push 46 (record copied { ext = some copied.c }) in
    if i == 7 then dotted else copied

unfoldable pub get_name_loop : (i : ℕ) → List ℕ → NameBuffer → NameBuffer
get_name_loop i [] b = b
get_name_loop i (x ∷ xs) b = get_name_loop (i + 1) xs (get_name_step i x b)

-- The dot is taken back where nothing follows it.
abbrev pub drop_dot : NameBuffer → ℕ → ℕ
drop_dot b = elim b.ext [
  | none ↦ b.dest
  | some e ↦ if b.dest (e + 1) == 0 then put_byte b.dest e 0 else b.dest
]

-- The first `SFN_LEN + 1` bytes are set to 0 before the loop.
abbrev pub clear_name : (ℕ → ℕ) → ℕ → ℕ
clear_name dest j = if ltb j (sfn_len + 1) then 0 else dest j

unfoldable pub diritem_get_name : (dir_name : List ℕ) → (dest : ℕ → ℕ) → ℕ → ℕ
diritem_get_name dir_name dest =
    drop_dot (get_name_loop 0 dir_name (record { dest = clear_name dest; c = 0; ext = none }))
