-- ===== src/Query.antt =====
-- The search box of the inbox (hub/app/core/notification_query.py). `str.lower` follows the tables of
-- Unicode and is an argument.
pub mod Render
pub mod Tokens
pub mod Names
pub mod RoundTrip
use ampla.Shared.{
  ℕ, String, Bool, true, false, not, ◌||◌, ◌&&◌, ◌==◌, eq_string, Option, none, some, List, [], ◌∷◌,
  any, ltb, if◌then◌else◌,
}
use ampla.Text.{is_empty}
use ampla.Text.Split.{split, partition, length_of}

abbrev pub statuses : List String
statuses = "inbox" ∷ "saved" ∷ "done" ∷ []

-- _SUBJECT_TYPES
abbrev pub subject_types : List String
subject_types = "dm" ∷ "mention" ∷ "task" ∷ "broadcast" ∷ "approval" ∷ []

-- hub/app/schemas/notification.py
abbrev pub reasons : List String
reasons =
    "mention" ∷ "direct_message" ∷ "task_assigned" ∷ "approval_requested" ∷ "autorespond_completed"
    ∷ "autorespond_blocked" ∷ "broadcast" ∷ "team_mention" ∷ "participating" ∷ "subscribed"
    ∷ "state_change" ∷ "security_alert" ∷ "escalation" ∷ "system" ∷ []

-- _MAX_VALUE
abbrev pub max_value : ℕ
max_value = 64

pub record ParsedFilter : Type 0 where
  pub status : Option String
  pub unread : Option Bool
  pub reason : Option String
  pub agent_slug : Option String
  pub actor : Option String
  pub subject_type : Option String

abbrev pub no_filter : ParsedFilter
no_filter = record {
  status = none;
  unread = none;
  reason = none;
  agent_slug = none;
  actor = none;
  subject_type = none;
}

-- `value in …`
abbrev pub member : String → List String → Bool
member value values = any (λ v. v == value) values

-- `is:…`
unfoldable pub apply_is : String → ParsedFilter → ParsedFilter
apply_is value f =
    if member value statuses
    then record f { status = some value }
    else if value == "unread"
    then record f { unread = some true }
    else if value == "read"
    then record f { unread = some false }
    else if member value subject_types
    then record f { subject_type = some value }
    else f

-- A qualifier with its key and value in lower case.
unfoldable pub apply_qualifier : String → String → ParsedFilter → ParsedFilter
unfolding apply_is
apply_qualifier key value f =
    if key == "is"
    then apply_is value f
    else if key == "reason" && member value reasons
    then record f { reason = some value }
    else if key == "agent"
    then record f { agent_slug = some value }
    else if key == "from"
    then record f { actor = some value }
    else f

module _ (lower : String → String) where
  abbrev pub apply_parts : String × Bool × String → ParsedFilter → ParsedFilter
  apply_parts (key, found, value) f =
      if not found || is_empty value
      then f
      else if ltb max_value (length_of (lower value))
      then f
      else apply_qualifier (lower key) (lower value) f

  unfoldable pub apply_token : String → ParsedFilter → ParsedFilter
  unfolding partition
  apply_token token f = apply_parts (partition b':' token) f

  -- The loop over the tokens: a later one overwrites an earlier one.
  abbrev pub apply_tokens : List String → ParsedFilter → ParsedFilter
  apply_tokens [] f = f
  apply_tokens (t ∷ ts) f = apply_tokens ts (apply_token t f)

  -- `if not query`
  unfoldable pub parse_filter_query : Option String → ParsedFilter
  unfolding split
  parse_filter_query none = no_filter
  parse_filter_query (some query) =
      if is_empty query then no_filter else apply_tokens (split query) no_filter
