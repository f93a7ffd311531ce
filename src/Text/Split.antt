-- ===== src/Text/Split.antt =====
-- `str.split` and `str.partition` of Python's standard library, at separators of one character.
use Prim.Native.Char.{Char, code}
use ampla.Shared.{
  ℕ, suc, String, Bool, true, false, not, List, [], ◌∷◌, select, if◌then◌else◌, nat_eq,
}
use ampla.Text.{is_space, is_empty}

-- One more character in front of the first piece.
abbrev pub cons_head : Char → List String → List String
cons_head c [] = String.◌∷◌ c String.[] ∷ []
cons_head c (w ∷ ws) = String.◌∷◌ c w ∷ ws

-- The pieces between the characters that pass the test; there is always one.
unfoldable pub pieces : (ℕ → Bool) → String → List String
pieces p String.[] = String.[] ∷ []
pieces p (String.◌∷◌ c s) =
    let rest = pieces p s in if p (code c) then String.[] ∷ rest else cons_head c rest

-- `s.split(sep)`
unfoldable pub split_on : ℕ → String → List String
unfolding pieces
split_on sep s = pieces (nat_eq sep) s

-- `s.split()`
unfoldable pub split : String → List String
unfolding pieces
split s = select (λ w. not (is_empty w)) (pieces is_space s)

abbrev pub cons_before : Char → String × Bool × String → String × Bool × String
cons_before c (before, found, after) = (String.◌∷◌ c before, found, after)

-- `s.partition(sep)`: what stands before the first separator, whether there is one, and what stands
-- after it.
unfoldable pub partition : ℕ → String → String × Bool × String
partition sep String.[] = (String.[], false, String.[])
partition sep (String.◌∷◌ c s) =
    let rest = partition sep s in
    if nat_eq sep (code c) then (String.[], true, s) else cons_before c rest

abbrev pub length_of : String → ℕ
length_of String.[] = 0
length_of (String.◌∷◌ c s) = suc (length_of s)
