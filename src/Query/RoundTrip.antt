-- ===== src/Query/RoundTrip.antt =====
-- What the search box reads of a rendered filter is the filter
-- (hub/app/core/notification_query.py, `parse_filter_query`).
use ampla.Shared.{
  both, not-true, ℕ, ◌≤◌, ◌≡◌, refl, ◌∙◌, String, Bool, true, false, not, ◌&&◌, ◌==◌, eq_string,
  Option, none, some, List, [], ◌∷◌, ◌++◌, arith, All, ltb,
}
use ampla.Text.{is_empty}
use ampla.Text.Split.{split, partition, pieces, length_of}
use ampla.Query.{
  ParsedFilter, no_filter, statuses, subject_types, reasons, member, max_value, apply_is,
  apply_qualifier, apply_token, apply_tokens, parse_filter_query,
}
use ampla.Query.Render.{
  append, optional, read_state, qualifiers, render, plain, KeepsPlain, IsName, OneOf, IsFilter,
}
use ampla.Query.Tokens.{spaceless, IsWord, split-join}
use ampla.Query.Names.{nameb, nameb→IsName, every, member-every, other, word}

-- ---- one token ----

module _ (lower : String → String) (keeps : KeepsPlain lower) where
  -- A qualifier is taken apart as it was put together.
  read :
      (key colon v : String) (f : ParsedFilter)
      → plain key ≡ true
      → partition b':' (append colon v) ≡ (key, true, v)
      → IsName (some v)
      → apply_token lower (append colon v) f ≡ apply_qualifier key v f
  unfolding apply_token
  read key colon v f k cut n = rw (cut, n.1, keeps v n.0, keeps key k, short (length_of v) n.2) refl
    where
      short : (n : ℕ) → n ≤ max_value → ltb max_value n ≡ false
      short n h = ground (arith, h)

  read_status :
      (v : Option String)
      → OneOf statuses v
      → apply_tokens lower (optional "is:" v) no_filter ≡ record no_filter { status = v }
  unfolding partition apply_qualifier apply_is
  read_status none n = refl
  read_status (some v) n =
      read "is" "is:" v no_filter refl refl (nameb→IsName v (member-every nameb v statuses refl n))
      ∙ (rw n refl)

  read_unread :
      (v : Option Bool) (f : ParsedFilter)
      → f.unread ≡ none
      → apply_tokens lower (read_state v) f ≡ record f { unread = v }
  unfolding partition apply_qualifier apply_is
  read_unread none f e = rw (← e) refl
  read_unread (some true) f e = read "is" "is:" "unread" f refl refl (refl, refl, omega arith)
  read_unread (some false) f e = read "is" "is:" "read" f refl refl (refl, refl, omega arith)

  read_reason :
      (v : Option String) (f : ParsedFilter)
      → OneOf reasons v
      → f.reason ≡ none
      → apply_tokens lower (optional "reason:" v) f ≡ record f { reason = v }
  unfolding partition apply_qualifier
  read_reason none f n e = rw (← e) refl
  read_reason (some v) f n e =
      read "reason" "reason:" v f refl refl (nameb→IsName v (member-every nameb v reasons refl n))
      ∙ (rw n refl)

  read_agent :
      (v : Option String) (f : ParsedFilter)
      → IsName v
      → f.agent_slug ≡ none
      → apply_tokens lower (optional "agent:" v) f ≡ record f { agent_slug = v }
  unfolding partition apply_qualifier
  read_agent none f n e = rw (← e) refl
  read_agent (some v) f n e = read "agent" "agent:" v f refl refl n

  read_actor :
      (v : Option String) (f : ParsedFilter)
      → IsName v
      → f.actor ≡ none
      → apply_tokens lower (optional "from:" v) f ≡ record f { actor = v }
  unfolding partition apply_qualifier
  read_actor none f n e = rw (← e) refl
  read_actor (some v) f n e = read "from" "from:" v f refl refl n

  read_subject_type :
      (v : Option String) (f : ParsedFilter)
      → OneOf subject_types v
      → f.subject_type ≡ none
      → apply_tokens lower (optional "is:" v) f ≡ record f { subject_type = v }
  unfolding partition apply_qualifier apply_is
  read_subject_type none f n e = rw (← e) refl
  read_subject_type (some v) f n e =
      let apart =
        both (not (member v statuses)) (not (v == "unread") && not (v == "read"))
          (member-every other v subject_types refl n) in
      let two = both (not (v == "unread")) (not (v == "read")) apart.1 in
      read "is" "is:" v f refl refl (nameb→IsName v (member-every nameb v subject_types refl n))
      ∙ (rw
          (
            not-true (member v statuses) apart.0,
            not-true (v == "unread") two.0,
            not-true (v == "read") two.1,
            n,
          )
          refl)

  -- One qualifier after the other.
  following :
      (xs ys : List String) (f g h : ParsedFilter)
      → apply_tokens lower xs f ≡ g
      → apply_tokens lower ys g ≡ h
      → apply_tokens lower (xs ++ ys) f ≡ h
  following [] ys f g h a b = rw a b
  following (x ∷ xs) ys f g h a b = following xs ys (apply_token lower x f) g h a b

  read_all : (f : ParsedFilter) → IsFilter f → apply_tokens lower (qualifiers f) no_filter ≡ f
  read_all f (s, r, a, c, t) =
      following (optional "is:" f.status) _ no_filter _ f (read_status f.status s) (
        following (read_state f.unread) _ _ _ f (read_unread f.unread _ refl) (
          following (optional "reason:" f.reason) _ _ _ f (read_reason f.reason _ r refl) (
            following (optional "agent:" f.agent_slug) _ _ _ f (read_agent f.agent_slug _ a refl) (
              following (optional "from:" f.actor) _ _ _ f (read_actor f.actor _ c refl)
                (read_subject_type f.subject_type _ t refl)))))

-- ---- all tokens ----

All-append : (P : String → Type 0) (xs ys : List String) → All P xs → All P ys → All P (xs ++ ys)
All-append P [] ys h k = k
All-append P (x ∷ xs) ys h k = (h.0, All-append P xs ys h.1 k)

named :
    (key : String) (v : Option String)
    → spaceless key ≡ true
    → is_empty key ≡ false
    → IsName v
    → All IsWord (optional key v)
named key none s e n = tt
named key (some v) s e n = (word key v s e n, tt)

one_of :
    (values : List String) (v : Option String)
    → every nameb values ≡ true
    → OneOf values v
    → IsName v
one_of values none a n = tt
one_of values (some v) a n = nameb→IsName v (member-every nameb v values a n)

read_state-IsWord : (v : Option Bool) → All IsWord (read_state v)
read_state-IsWord none = tt
read_state-IsWord (some true) = ((refl, refl), tt)
read_state-IsWord (some false) = ((refl, refl), tt)

qualifiers-IsWord : (f : ParsedFilter) → IsFilter f → All IsWord (qualifiers f)
qualifiers-IsWord f (s, r, a, c, t) =
    All-append IsWord (optional "is:" f.status) _
      (named "is:" f.status refl refl (one_of statuses f.status refl s))
      (All-append IsWord (read_state f.unread) _ (read_state-IsWord f.unread) (
        All-append IsWord (optional "reason:" f.reason) _
          (named "reason:" f.reason refl refl (one_of reasons f.reason refl r))
          (All-append IsWord (optional "agent:" f.agent_slug) _
            (named "agent:" f.agent_slug refl refl a)
            (All-append IsWord (optional "from:" f.actor) _ (named "from:" f.actor refl refl c) (
              named "is:" f.subject_type refl refl (one_of subject_types f.subject_type refl t))))))

parsed :
    (lower : String → String) (q : String)
    → parse_filter_query lower (some q) ≡ apply_tokens lower (split q) no_filter
unfolding parse_filter_query split pieces
parsed lower String.[] = refl
parsed lower (String.◌∷◌ c s) = refl

-- A filter with a known status, reason and subject type, and with slugs of at most 64 characters
-- without capitals, is read back from its text as it was, where lower case leaves such texts alone.
pub parse_filter_query-render :
    (lower : String → String) (f : ParsedFilter)
    → KeepsPlain lower
    → IsFilter f
    → parse_filter_query lower (some (render f)) ≡ f
parse_filter_query-render lower f keeps h =
    rw (parsed lower (render f), split-join (qualifiers f) (qualifiers-IsWord f h))
      (read_all lower keeps f h)
