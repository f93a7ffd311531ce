-- ===== src/Query/Render.antt =====
-- A filter as a text of the search box, which the panel's users write by hand: an independent account
-- of what hub/app/core/notification_query.py reads.
use Prim.Native.Char.{code}
use ampla.Shared.{
  ℕ, ◌≤◌, ◌≡◌, String, Bool, true, false, ◌&&◌, ◌||◌, Option, none, some, List, [], ◌∷◌, ◌++◌,
  nat_eq, leb,
}
use ampla.Text.{is_empty}
use ampla.Text.Split.{length_of}
use ampla.Query.{ParsedFilter, statuses, subject_types, reasons, member, max_value}

-- One text after the other.
abbrev pub append : String → String → String
append String.[] t = t
append (String.◌∷◌ c s) t = String.◌∷◌ c (append s t)

abbrev pub optional : String → Option String → List String
optional key none = []
optional key (some v) = append key v ∷ []

abbrev pub read_state : Option Bool → List String
read_state none = []
read_state (some true) = "is:unread" ∷ []
read_state (some false) = "is:read" ∷ []

abbrev pub qualifiers : ParsedFilter → List String
qualifiers f =
    optional "is:" f.status
    ++ (read_state f.unread
        ++ (optional "reason:" f.reason
            ++ (optional "agent:" f.agent_slug
                ++ (optional "from:" f.actor ++ optional "is:" f.subject_type))))

-- The tokens with a space between two of them.
abbrev pub join : List String → String
join [] = ""
join (t ∷ []) = t
join (t ∷ u ∷ us) = append t (String.◌∷◌ " " (join (u ∷ us)))

abbrev pub render : ParsedFilter → String
render f = join (qualifiers f)

-- [a-z0-9_-]
abbrev pub plain_char : ℕ → Bool
plain_char c =
    leb b'a' c && leb c b'z' || leb b'0' c && leb c b'9' || nat_eq c b'-' || nat_eq c b'_'

abbrev pub plain : String → Bool
plain String.[] = true
plain (String.◌∷◌ c s) = plain_char (code c) && plain s

-- What the tables say of such texts.
abbrev pub KeepsPlain : (String → String) → Type 0
KeepsPlain lower = (s : String) → plain s ≡ true → lower s ≡ s

-- A slug that a filter may name.
abbrev pub IsName : Option String → Type 0
IsName none = Unit
IsName (some v) = (plain v ≡ true) × (is_empty v ≡ false) × (length_of v ≤ max_value)

abbrev pub OneOf : List String → Option String → Type 0
OneOf values none = Unit
OneOf values (some v) = member v values ≡ true

-- A filter that the search box can express.
abbrev pub IsFilter : ParsedFilter → Type 0
IsFilter f =
    OneOf statuses f.status
    × OneOf reasons f.reason
    × IsName f.agent_slug
    × IsName f.actor
    × OneOf subject_types f.subject_type
