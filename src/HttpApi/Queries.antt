-- ===== src/HttpApi/Queries.antt =====
-- Who is answered: handle of internal/httpapi/httpapi.go over the controller's QueryByToken.
use nfuse.Base.{
  ℕ, ◌≡◌, ◌≢◌, refl, ◌↔◌, ◌⊎◌, inl, inr, true, not, ◌&&◌, ◌||◌, Option, some, [], is_empty,
  is_empty-nil, arith, Bool-cases, Option-cases,
}
use nfuse.Base.Text.{Text, codes, text_eq}
use nfuse.Base.Float64.{Float64}
use nfuse.Engine.{Manager, Controller}
use nfuse.Engine.Views.{Grant, view_locked, query_by_token}
use nfuse.Engine.Access.{IsHeld, query_by_token_sound}
use nfuse.HttpApi.{HttpRequest, render_views, query_format, path_token, answer}

abbrev Allowed : HttpRequest → Type 0
Allowed r = (text_eq r.method (codes "GET") || text_eq r.method (codes "HEAD")) ≡ true

module _ (convert : Float64 → ℕ) where
  abbrev IsGranted : (Text → Option Grant) → HttpRequest → Type 0
  IsGranted query r =
      Allowed r
      × (path_token r.path ≢ [])
      × ((g : Grant) × (query (path_token r.path) ≡ some g)
          × ((answer convert query r).body ≡ render_views convert (query_format r) g.0))

  -- A request is answered with status 200 exactly if it is a GET or HEAD whose path has a token
  -- that grants something; the body is then the granted views in the wanted format.
  answer_iff :
      (query : Text → Option Grant) (r : HttpRequest)
      → ((answer convert query r).status ≡ 200) ↔ IsGranted query r
  unfolding answer
  answer_iff query r =
      elim (Bool-cases
        (not (text_eq r.method (codes "GET")) && not (text_eq r.method (codes "HEAD")))) [
          | inl denied ↦
              rw (answer, denied) (λ h. absurd (omega arith), λ g. ground (arith, denied, g.0))
          | inr allowed ↦ elim (Bool-cases (is_empty (path_token r.path))) [
            | inl empty ↦
                rw (answer, allowed, empty)
                  (
                    λ h. absurd (omega arith),
                    λ g. absurd (g.1 (is_empty-nil (path_token r.path) empty)),
                  )
            | inr full ↦ elim (Option-cases (query (path_token r.path))) [
              | inl unknown ↦
                  rw (answer, allowed, full, unknown)
                    (λ h. absurd (omega arith), λ g. (let e = g.2.1 in cc))
              | inr (g, granted) ↦
                  rw (answer, allowed, full, granted)
                    (
                      λ h. (
                        ground (arith, allowed),
                        (λ e. ground (arith, rw e at full)),
                        (g, refl, refl),
                      ),
                      λ k. refl,
                    )
            ]
          ]
        ]

  -- A 200 answer of the daemon shows all accounts only to the master token, and otherwise one
  -- account that holds the token.
  pub answer_sound :
      (m : Manager) (c : Controller m) (r : HttpRequest)
      → (answer convert (query_by_token m c) r).status ≡ 200
      → (g : Grant) × ((answer convert (query_by_token m c) r).body
          ≡ render_views convert (query_format r) g.0)
        × ((path_token r.path ≡ c.master_token) × (g ≡ (view_locked m c, true))
            ⊎ IsHeld (path_token r.path) c.snap.accounts g)
  answer_sound m c r h =
      let (allowed, full, (g, granted, body)) = (answer_iff (query_by_token m c) r).0 h in
      (g, body, (query_by_token_sound m c (path_token r.path) g granted).1)
