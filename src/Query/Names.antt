-- ===== src/Query/Names.antt =====
-- Names and words of a rendered filter (hub/app/core/notification_query.py).
use Prim.Native.Char.{code}
use ampla.Shared.{
  both, not-true, ℕ, ◌≤◌, ◌≡◌, inl, inr, refl, String, Bool, true, false, not, ◌&&◌, ◌==◌,
  eq_string, some, List, [], ◌∷◌, arith, Bool-cases, leb, leb→le,
}
use text.Mathlib.TextEquality.{eq_iff as str_eq_iff}
use ampla.Text.{is_space, is_empty}
use ampla.Text.Split.{length_of}
use ampla.Query.{statuses, member, max_value}
use ampla.Query.Render.{append, plain_char, plain, IsName}
use ampla.Query.Tokens.{spaceless, IsWord}

-- ---- the words ----

plain_range : (c : ℕ) → plain_char c ≡ true → (33 ≤ c) × (c ≤ 122)
plain_range c h = ground (arith, h)

plain_char-space : (c : ℕ) → plain_char c ≡ true → is_space c ≡ false
plain_char-space c h = let r = plain_range c h in ground (arith, r.0, r.1)

pub plain-spaceless : (s : String) → plain s ≡ true → spaceless s ≡ true
plain-spaceless String.[] h = refl
plain-spaceless (String.◌∷◌ c s) h =
    let parts = both (plain_char (code c)) (plain s) h in
    rw (plain_char-space (code c) parts.0, plain-spaceless s parts.1) refl

pub spaceless-append :
    (s t : String) → spaceless s ≡ true → spaceless t ≡ true → spaceless (append s t) ≡ true
spaceless-append String.[] t h k = k
spaceless-append (String.◌∷◌ c s) t h k =
    let parts = both (not (is_space (code c))) (spaceless s) h in
    rw (parts.0, spaceless-append s t parts.1 k) refl

-- ---- names ----

-- The test of `IsName`.
abbrev pub nameb : String → Bool
nameb v = plain v && (not (is_empty v) && leb (length_of v) max_value)

pub nameb→IsName : (v : String) → nameb v ≡ true → IsName (some v)
nameb→IsName v h =
    let outer = both (plain v) (not (is_empty v) && leb (length_of v) max_value) h in
    let inner = both (not (is_empty v)) (leb (length_of v) max_value) outer.1 in
    (outer.0, not-true (is_empty v) inner.0, leb→le (length_of v) max_value inner.1)

abbrev pub every : (String → Bool) → List String → Bool
every p [] = true
every p (v ∷ vs) = p v && every p vs

pub member-every :
    (p : String → Bool) (v : String) (values : List String)
    → every p values ≡ true
    → member v values ≡ true
    → p v ≡ true
member-every p v [] a h = let out : ⊥ = ground (arith, h) in elim out [ ]
member-every p v (w ∷ ws) a h =
    let parts = both (p w) (every p ws) a in
    elim (Bool-cases (w == v)) [
      | inl e ↦ rw (← (str_eq_iff w v).0 e) parts.0
      | inr e ↦ member-every p v ws parts.1 (rw e at h)
    ]

-- No subject type is one of the other values of `is:`.
abbrev pub other : String → Bool
other v = not (member v statuses) && (not (v == "unread") && not (v == "read"))

pub word :
    (key v : String)
    → spaceless key ≡ true
    → is_empty key ≡ false
    → IsName (some v)
    → IsWord (append key v)
word String.[] v s e n = let out : ⊥ = ground (arith, e) in elim out [ ]
word (String.◌∷◌ c key) v s e n =
    (spaceless-append (String.◌∷◌ c key) v s (plain-spaceless v n.0), refl)
