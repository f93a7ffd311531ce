-- ===== src/Query/Tokens.antt =====
-- The words of a rendered text are its tokens.
use Prim.Native.Char.{code}
use ampla.Shared.{
  both, not-true, ◌≡◌, refl, String, Bool, true, false, not, ◌&&◌, List, [], ◌∷◌, All,
}
use ampla.Text.{is_space, is_empty}
use ampla.Text.Split.{pieces, split}
use ampla.Query.Render.{append, join}

-- No character is a space.
abbrev pub spaceless : String → Bool
spaceless String.[] = true
spaceless (String.◌∷◌ c s) = not (is_space (code c)) && spaceless s

-- A word: not empty, and no space in it.
abbrev pub IsWord : String → Type 0
IsWord w = (spaceless w ≡ true) × (is_empty w ≡ false)

pieces_word : (w : String) → spaceless w ≡ true → pieces is_space w ≡ w ∷ []
unfolding pieces
pieces_word String.[] h = refl
pieces_word (String.◌∷◌ c s) h =
    let parts = both (not (is_space (code c))) (spaceless s) h in
    rw (not-true (is_space (code c)) parts.0, pieces_word s parts.1) refl

pieces_words :
    (w rest : String)
    → spaceless w ≡ true
    → pieces is_space (append w (String.◌∷◌ " " rest)) ≡ w ∷ pieces is_space rest
unfolding pieces
pieces_words String.[] rest h = refl
pieces_words (String.◌∷◌ c s) rest h =
    let parts = both (not (is_space (code c))) (spaceless s) h in
    rw (not-true (is_space (code c)) parts.0, pieces_words s rest parts.1) refl

pub split-join : (ts : List String) → All IsWord ts → split (join ts) ≡ ts
unfolding split pieces
split-join [] h = refl
split-join (t ∷ []) h = rw (pieces_word t h.0.0, h.0.1) refl
split-join (t ∷ u ∷ us) h =
    rw (pieces_words t (join (u ∷ us)) h.0.0, h.0.1) (rw (split-join (u ∷ us) h.1) refl)
