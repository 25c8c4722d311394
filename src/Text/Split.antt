-- ===== src/Text/Split.antt =====
-- Splitting and joining texts.
use mathlib.Core.List.{append_assoc}
use js_ng.Prelude.{ℕ, ◌≡◌, refl, ap, ◌∙◌, true, false, List, [], ◌∷◌, ◌++◌, arith, eqb, Str}
use js_ng.Text.{split, join}

-- The character does not occur in the text.
abbrev pub HasNo : ℕ → Str → Type 0
HasNo c [] = Unit
HasNo c (d ∷ s) = (eqb d c ≡ false) × HasNo c s

abbrev pub AllHaveNo : ℕ → List Str → Type 0
AllHaveNo c [] = Unit
AllHaveNo c (w ∷ ws) = HasNo c w × AllHaveNo c ws

pub split_word : (c : ℕ) (w : Str) → HasNo c w → split c w ≡ w ∷ []
unfolding split
split_word c [] h = refl
split_word c (d ∷ w) h = rw (h.0, split_word c w h.1)

eqb_refl : (c : ℕ) → eqb c c ≡ true
eqb_refl c = ground arith

pub split_words : (c : ℕ) (w s : Str) → HasNo c w → split c (w ++ c ∷ s) ≡ w ∷ split c s
unfolding split
split_words c [] s h = rw (eqb_refl c)
split_words c (d ∷ w) s h = rw (h.0, split_words c w s h.1)

-- Words with no separator in them come back.
pub split-join :
    (c : ℕ) (w : Str) (ws : List Str)
    → HasNo c w
    → AllHaveNo c ws
    → split c (join c (w ∷ ws)) ≡ w ∷ ws
unfolding join
split-join c w [] h hs = split_word c w h
split-join c w (v ∷ ws) h hs =
    split_words c w (join c (v ∷ ws)) h ∙ ap (λ t. w ∷ t) (split-join c v ws hs.0 hs.1)

-- A longer first word.
pub join-append :
    (c : ℕ) (w v : Str) (ws : List Str) → join c ((w ++ c ∷ v) ∷ ws) ≡ join c (w ∷ v ∷ ws)
unfolding join
join-append c w v [] = refl
join-append c w v (u ∷ ws) = append_assoc w (c ∷ v) (c ∷ join c (u ∷ ws))
