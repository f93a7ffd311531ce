-- ===== src/Mentions.antt =====
-- hub/app/core/mentions.py: the slugs that a body mentions.
use Prim.Native.Char.{code}
use ampla.Shared.{
  ℕ, zero, suc, ◌+◌, String, Bool, ◌&&◌, ◌||◌, ◌==◌, eq_string, List, [], ◌∷◌, ◌++◌, any,
  if◌then◌else◌, nat_eq, leb,
}

abbrev pub is_lower : ℕ → Bool
is_lower c = leb b'a' c && leb c b'z'

-- [a-z0-9]
abbrev pub is_end : ℕ → Bool
is_end c = is_lower c || leb b'0' c && leb c b'9'

-- [a-z0-9-]
abbrev pub is_inner : ℕ → Bool
is_inner c = is_end c || nat_eq c b'-'

-- `[a-z0-9-]{1,48}[a-z0-9]` at the start of a text: the length of the longest match, which is the
-- one that the greedy expression finds, or 0. `room` characters may still be taken, and `taken` are.
tail_length : ℕ → ℕ → ℕ → String → ℕ
tail_length zero taken best s = best
tail_length (suc room) taken best String.[] = best
tail_length (suc room) taken best (String.◌∷◌ c s) =
    let here = if leb 1 taken && is_end (code c) then taken + 1 else best in
    let more = tail_length room (taken + 1) here s in if is_inner (code c) then more else best

-- The length of the slug that follows an `@`, or 0.
pub slug_length : String → ℕ
unfolding tail_length
slug_length String.[] = 0
slug_length (String.◌∷◌ c s) =
    let tail = tail_length 49 0 0 s in if is_lower (code c) && leb 1 tail then tail + 1 else 0

abbrev pub prefix : ℕ → String → String
prefix zero s = String.[]
prefix (suc n) String.[] = String.[]
prefix (suc n) (String.◌∷◌ c s) = String.◌∷◌ c (prefix n s)

-- `seen.setdefault(slug, None)`
abbrev pub add_once : String → List String → List String
add_once slug seen = if any (λ s. s == slug) seen then seen else seen ++ slug ∷ []

-- The matches of `finditer`, left to right: `skip` characters still belong to the last match.
unfoldable pub mentions_from : ℕ → String → List String → List String
unfolding slug_length
mentions_from skip String.[] seen = seen
mentions_from (suc skip) (String.◌∷◌ c s) seen = mentions_from skip s seen
mentions_from zero (String.◌∷◌ c s) seen =
    let n = if nat_eq (code c) b'@' then slug_length s else 0 in
    mentions_from n s (if nat_eq n 0 then seen else add_once (prefix n s) seen)

unfoldable pub parse_mentions : String → List String
unfolding mentions_from
parse_mentions body = mentions_from 0 body []
