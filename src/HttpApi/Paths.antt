-- ===== src/HttpApi/Paths.antt =====
-- The token in a request's path: handle of internal/httpapi/httpapi.go.
use nfuse.Base.{◌≡◌, refl, ◌≢◌, [], ◌∷◌, ◌++◌, is_empty, arith, All, Bool-cases, inl, inr}
use nfuse.Base.Text.{Text}
use nfuse.HttpApi.{drop_slashes, trim_end, first_segment, path_token}

-- The text is empty or goes on with a slash.
abbrev Ends : Text → Type 0
Ends [] = Unit {0}
Ends (c ∷ s) = c ≡ b'/'

segment_tail : (t : Text) → Ends t → first_segment (trim_end t) ≡ []
unfolding first_segment trim_end
segment_tail [] h = refl
segment_tail (c ∷ s) h = elim (Bool-cases (is_empty (trim_end s))) [
  | inl all ↦ ground (arith, h, all)
  | inr some_left ↦ ground (arith, h, some_left)
]

segment_append :
    (s t : Text) → All (λ c. c ≢ b'/') s → Ends t → first_segment (trim_end (s ++ t)) ≡ s
unfolding first_segment trim_end
segment_append [] t h e = segment_tail t e
segment_append (c ∷ s) t h e = let ih = segment_append s t h.1 e in ground (arith, ih, h.0)

-- The token of a path is its first segment: a token without a slash stands behind the path's first
-- slash, alone or before a slash and any text.
path_token_lem :
    (s t : Text) → s ≢ [] → All (λ c. c ≢ b'/') s → Ends t → path_token (b'/' ∷ (s ++ t)) ≡ s
unfolding path_token drop_slashes
path_token_lem [] t n h e = absurd (n refl)
path_token_lem (c ∷ s) t n h e = let ih = segment_append (c ∷ s) t h e in ground (arith, h.0, ih)
