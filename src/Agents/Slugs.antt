-- ===== src/Agents/Slugs.antt =====
-- The slugs of agents and groups (hub/app/schemas/agent.py) and their order in the database.
use Prim.Native.Char.{code}
use ampla.Shared.{
  ℕ, ◌+◌, String, Bool, true, false, ◌&&◌, ◌==◌, eq_string, List, [], ◌∷◌, any, ltb, leb, nat_eq,
  if◌then◌else◌,
}
use ampla.Mentions.{is_lower, is_end, is_inner}

-- `[a-z0-9-]{1,48}[a-z0-9]`, up to the end, after some characters of its first part
slug_tail : ℕ → String → Bool
slug_tail taken String.[] = false
slug_tail taken (String.◌∷◌ c String.[]) = leb 1 taken && (leb taken 48 && is_end (code c))
slug_tail taken (String.◌∷◌ c (String.◌∷◌ d s)) =
    is_inner (code c) && slug_tail (taken + 1) (String.◌∷◌ d s)

-- `_SLUG_RE.fullmatch`
unfoldable pub is_slug : String → Bool
unfolding slug_tail
is_slug String.[] = false
is_slug (String.◌∷◌ c s) = is_lower (code c) && slug_tail 0 s

abbrev pub all_slugs : List String → Bool
all_slugs [] = true
all_slugs (s ∷ ss) = is_slug s && all_slugs ss

-- RESERVED_SLUGS
abbrev pub reserved_slugs : List String
reserved_slugs = "all" ∷ []

abbrev pub is_reserved : String → Bool
is_reserved slug = any (λ s. s == slug) reserved_slugs

-- The order of texts, by code points.
unfoldable pub string_leb : String → String → Bool
string_leb String.[] t = true
string_leb (String.◌∷◌ c s) String.[] = false
string_leb (String.◌∷◌ c s) (String.◌∷◌ d t) =
    let rest = string_leb s t in if nat_eq (code c) (code d) then rest else ltb (code c) (code d)
