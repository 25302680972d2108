-- ===== src/Text/Strings/FileName.antt =====
-- `get_file_name`.
use os_training.Base.{ℕ, ◌≡◌, refl, ◌∙◌, ap, true, false, List, [], ◌∷◌, ◌++◌}
use mathlib.Core.List.{append-nil}
use os_training.Text.Strings.{get_file_name, search_back, to_end, is_separator}

-- No byte of the string is a separator.
abbrev pub IsPlain : List ℕ → Type 0
IsPlain [] = Unit {0}
IsPlain (c ∷ s) = (is_separator c ≡ false) × IsPlain s

to_end-append : (a b back : List ℕ) → to_end (a ++ b) back ≡ to_end b (to_end a back)
unfolding to_end
to_end-append [] b back = refl
to_end-append (c ∷ a) b back = to_end-append a b (c ∷ back)

-- One byte that is no separator.
search_back-step :
    (c : ℕ) (back after : List ℕ)
    → is_separator c ≡ false
    → search_back (c ∷ back) after ≡ search_back back (c ∷ after)
unfolding search_back
search_back-step c back after p = rw p refl

-- The search goes back over a plain string.
search_back-plain :
    (s back after : List ℕ)
    → IsPlain s
    → search_back (to_end s back) after ≡ search_back back (s ++ after)
unfolding to_end
search_back-plain [] back after h = refl
search_back-plain (c ∷ s) back after (p, h) =
    search_back-plain s (c ∷ back) after h ∙ search_back-step c back (s ++ after) p

-- `get_file_name` gives what follows the last separator.
get_file_name-last :
    (dir : List ℕ) (c : ℕ) (base : List ℕ)
    → is_separator c ≡ true
    → IsPlain base
    → get_file_name (dir ++ (c ∷ base)) ≡ base
unfolding get_file_name to_end search_back
get_file_name-last dir c base h plain =
    let back = to_end dir [] in
    let whole : search_back (to_end base (c ∷ back)) [] ≡ base ++ [] =
      search_back-plain base (c ∷ back) [] plain ∙ rw h refl in
    ap (λ s. search_back s []) (to_end-append dir (c ∷ base) []) ∙ whole ∙ append-nil base

-- A name with no separator is its own last part.
get_file_name-plain : (base : List ℕ) → IsPlain base → get_file_name base ≡ base
unfolding get_file_name search_back
get_file_name-plain base plain = search_back-plain base [] [] plain ∙ append-nil base
