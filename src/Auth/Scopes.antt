-- ===== src/Auth/Scopes.antt =====
-- The two forms of a `scope` claim.
use synapse_platform.Prelude.{◌≡◌, refl, false, some, List, [], ◌∷◌, map}
use synapse_platform.Prelude.Text.{Bytes, is_empty_bytes, join, AllLack, split-join}
use synapse_platform.Auth.{text, array, text_items, parse_scopes}

-- No piece is empty.
abbrev pub AllFull : List Bytes → Type 0
AllFull [] = Unit
AllFull (p ∷ ps) = (is_empty_bytes p ≡ false) × AllFull ps

text_items-map : (ps : List Bytes) → AllFull ps → text_items (map (λ p. some p) ps) ≡ ps
unfolding text_items
text_items-map [] h = refl
text_items-map (p ∷ ps) h = rw (text_items, h.0, text_items-map ps h.1) refl

join_full :
    (p : Bytes) (ps : List Bytes)
    → is_empty_bytes p ≡ false
    → is_empty_bytes (join b' ' (p ∷ ps)) ≡ false
unfolding join
join_full [] ps h = cc
join_full (c ∷ cs) [] h = refl
join_full (c ∷ cs) (q ∷ ps) h = refl

-- Scopes that are not empty and hold no space are read back from a token, both from one text with a
-- space between two of them and from an array of texts.
pub parse_scopes-join :
    (p : Bytes) (ps : List Bytes)
    → AllLack b' ' (p ∷ ps)
    → AllFull (p ∷ ps)
    → (parse_scopes (text (join b' ' (p ∷ ps))) ≡ p ∷ ps)
      × (parse_scopes (array (map (λ q. some q) (p ∷ ps))) ≡ p ∷ ps)
unfolding parse_scopes
parse_scopes-join p ps lack full =
    (rw (join_full p ps full.0) (split-join b' ' p ps lack), text_items-map (p ∷ ps) full)
