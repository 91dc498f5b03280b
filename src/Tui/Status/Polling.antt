-- ===== src/Tui/Status/Polling.antt =====
-- How often the terminal interface asks for the daemon's health.
use nfuse.Base.{ℕ, zero, suc, ◌+◌, ◌*◌, ◌≡◌, refl, ap, ◌∙◌, Option, some, Result, ok, err, arith}
use nfuse.Base.Text.{Text}
use nfuse.Rpc.{HealthResult}
use nfuse.Tui.Status.{Polled, fetched, fetch, health_line, health_lines, health_refresh_ticks}

pub due : Option HealthResult → Polled
due cache = record { cache = cache; countdown = 0 }

module _ {W : Type 0} (health : W → Result Text HealthResult × W) where
  -- The world after that many questions.
  unfoldable pub asked : ℕ → W → W
  asked zero w = w
  asked (suc n) w = asked n (health w).1

  -- A refresh of the cache lasts for five renders.
  one_period :
      (cache : Option HealthResult) (w w' : W) (h : HealthResult)
      → health w ≡ (ok h, w')
      → health_lines health 5 (due cache, w) ≡ (due (some h), w')
  unfolding health_lines health_line fetch fetched health_refresh_ticks due
  one_period cache w w' h is = rw is refl

  at : (a b : ℕ) → a ≡ b → (s : Polled × W) → health_lines health a s ≡ health_lines health b s
  at a b e s = ap (λ k. health_lines health k s) e

  health_lines-plus :
      (a b : ℕ) (s : Polled × W)
      → health_lines health (a + b) s ≡ health_lines health b (health_lines health a s)
  unfolding health_lines
  health_lines-plus zero b s = at (zero + b) b (omega arith) s
  health_lines-plus (suc a) b s =
      at (suc a + b) (suc (a + b)) (omega arith) s ∙ health_lines-plus a b (health_line health s)

  -- While the daemon answers, every five renders ask for its health once, and the next one is due to ask again.
  pub asks_every_five :
      (n : ℕ) (cache : Option HealthResult) (w : W)
      → ((w' : W) → (h : HealthResult) × (health w' ≡ (ok h, (health w').1)))
      → ((health_lines health (n * 5) (due cache, w)).1 ≡ asked n w)
        × ((health_lines health (n * 5) (due cache, w)).0.countdown ≡ 0)
  unfolding health_lines asked due
  asks_every_five zero cache w answers = (refl, refl)
  asks_every_five (suc n) cache w answers =
      let (h, is) = answers w in
      let period =
        at (suc n * 5) (5 + n * 5) (omega arith) (due cache, w)
        ∙ health_lines-plus 5 (n * 5) (due cache, w)
        ∙ ap (health_lines health (n * 5)) (one_period cache w (health w).1 h is) in
      let rest = asks_every_five n (some h) (health w).1 answers in
      (ap (λ s. s.1) period ∙ rest.0, ap (λ (s : Polled × W). s.0.countdown) period ∙ rest.1)

  -- While it does not answer, every render asks, and what was shown stays.
  fails_every_time :
      (n : ℕ) (cache : Option HealthResult) (w : W)
      → ((w' : W) → (e : Text) × (health w' ≡ (err e, (health w').1)))
      → health_lines health n (due cache, w) ≡ (due cache, asked n w)
  unfolding health_lines health_line fetch fetched asked due
  fails_every_time zero cache w fails = refl
  fails_every_time (suc n) cache w fails =
      let (e, is) = fails w in rw is (fails_every_time n cache (health w).1 fails)
