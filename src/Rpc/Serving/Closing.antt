-- ===== src/Rpc/Serving/Closing.antt =====
-- What Close of internal/rpc/server.go leaves open.
use nfuse.Base.{Bool-cases, ℕ, ◌≡◌, ◌≢◌, ◌⊎◌, inl, inr, refl, true, false, none, some, arith}
use nfuse.Rpc.Serving.{
  running, stopped, closed, Serving, listening, accept, register, delete, hang_up, drop, Step,
  accepts, registers, deletes, hangs_up, returns, fails, stops, drops, removes, Reach, here, next,
}

Known : Serving → Type 0
Known s =
    (n : ℕ)
    → s.connected n ≡ true
    → (s.accepted ≡ some n) ⊎ (s.conns n ≡ true) ⊎ (s.leaving n ≡ true)

-- Before Close drops the connections, each that is open is known to someone who will close it: it waits to
-- be registered, it is among those that Close will drop, or its handler is about to close it.
record Inv (s : Serving) : Type 0 where
  early : (s.phase ≡ running) ⊎ (s.phase ≡ stopped) → Known s
  pending :
      (n : ℕ)
      → s.accepted ≡ some n
      → (s.connected n ≡ true) × (s.handled n ≡ false) × (s.leaving n ≡ false) × (s.conns n ≡ false)
  tracked : (n : ℕ) → s.conns n ≡ true → s.handled n ≡ true
  served : s.serves ≡ false → s.accepted ≡ none

Step-Inv : {s t : Serving} → Step s t → Inv s → Inv t
unfolding Known accept register delete hang_up drop
Step-Inv {s} (accepts n a b c d e f) v = record {
  early = λ o k h. grind (arith, v.early o k);
  pending = λ k h. grind (arith, v.tracked n);
  tracked = v.tracked;
  served = λ h. grind arith;
}
Step-Inv {s} (registers n a) v = record {
  early = λ o k h. grind (arith, v.early o k h);
  pending = λ k h. grind arith;
  tracked = λ k h. grind (arith, v.tracked k);
  served = λ h. grind (arith, v.served h);
}
Step-Inv {s} (deletes n a) v = record {
  early = λ o k h. grind (arith, v.early o k h);
  pending = λ k h. grind (arith, v.pending k h);
  tracked = λ k h. grind (arith, v.tracked k);
  served = v.served;
}
Step-Inv {s} (hangs_up n a) v = record {
  early = λ o k h. grind (arith, v.early o k);
  pending = λ k h. grind (arith, v.pending k h);
  tracked = v.tracked;
  served = v.served;
}
Step-Inv {s} (returns a b c) v = record {
  early = v.early;
  pending = v.pending;
  tracked = v.tracked;
  served = λ h. c;
}
Step-Inv {s} (fails a b) v = record {
  early = v.early;
  pending = v.pending;
  tracked = v.tracked;
  served = λ h. b;
}
Step-Inv {s} (stops a) v = record {
  early = λ o. v.early (inl a);
  pending = v.pending;
  tracked = v.tracked;
  served = v.served;
}
Step-Inv {s} (drops a) v = record {
  early = λ o k h. grind arith;
  pending = λ k h. grind (arith, v.pending k h);
  tracked = λ k h. cc;
  served = v.served;
}
Step-Inv {s} (removes a) v = record {
  early = λ o k h. grind arith;
  pending = v.pending;
  tracked = v.tracked;
  served = v.served;
}

listening-Inv : Inv listening
unfolding Known
listening-Inv = record {
  early = λ o k h. cc;
  pending = λ k h. cc;
  tracked = λ k h. cc;
  served = λ h. cc;
}

Reach-Inv : {s t : Serving} → Reach s t → Inv s → Inv t
Reach-Inv here v = v
Reach-Inv (next r st) v = Step-Inv st (Reach-Inv r v)

-- Nothing is accepted any more, and what is open is about to be closed.
record IsQuiet (s : Serving) : Type 0 where
  past : s.phase ≢ running
  accepted : s.accepted ≡ none
  hung_up : (n : ℕ) → s.connected n ≡ true → s.leaving n ≡ true

Step-IsQuiet : {s t : Serving} → Step s t → IsQuiet s → IsQuiet t
unfolding accept register delete hang_up drop
Step-IsQuiet (accepts n a b c d e f) q = absurd (q.past a)
Step-IsQuiet (registers n a) q = cc
Step-IsQuiet (deletes n a) q = record {
  past = q.past;
  accepted = q.accepted;
  hung_up = λ k h. grind (arith, q.hung_up k h);
}
Step-IsQuiet (hangs_up n a) q = record {
  past = q.past;
  accepted = q.accepted;
  hung_up = λ k h. grind (arith, q.hung_up k);
}
Step-IsQuiet (returns a b c) q = record {
  past = q.past;
  accepted = q.accepted;
  hung_up = q.hung_up;
}
Step-IsQuiet (fails a b) q = record { past = q.past; accepted = q.accepted; hung_up = q.hung_up }
Step-IsQuiet (stops a) q = absurd (q.past a)
Step-IsQuiet (drops a) q = record {
  past = λ e. cc;
  accepted = q.accepted;
  hung_up = λ k h. grind (arith, q.hung_up k);
}
Step-IsQuiet (removes a) q = record { past = λ e. cc; accepted = q.accepted; hung_up = q.hung_up }

Reach-IsQuiet : {s t : Serving} → Reach s t → IsQuiet s → IsQuiet t
Reach-IsQuiet here q = q
Reach-IsQuiet (next r st) q = Step-IsQuiet st (Reach-IsQuiet r q)

-- If Serve has returned before Close drops the connections, because its listener was closed or with an
-- error of its own, Close leaves none open, then and ever after,
-- but those whose handler is about to close them.
pub close_after_serve :
    {s u : Serving}
    → Reach listening s
    → s.phase ≡ stopped
    → s.serves ≡ false
    → Reach (drop s) u
    → (n : ℕ) → u.connected n ≡ true
    → u.leaving n ≡ true
unfolding drop Known
close_after_serve {s} before at ended after n =
    (Reach-IsQuiet after (record {
      past = λ e. cc;
      accepted = inv.served ended;
      hung_up = λ k h. grind (arith, inv.early (inr at) k, inv.served ended);
    })).hung_up
      n
  where
    inv : Inv s
    inv = Reach-Inv before listening-Inv

-- If Serve has accepted a connection and not yet registered it when Close drops the connections, Close can
-- return, and Serve as well, with that connection open and served by its handler.
pub late_connection_stays :
    {s : Serving} (n : ℕ)
    → Reach listening s
    → s.phase ≡ stopped
    → s.accepted ≡ some n
    → (u : Serving) × Reach (drop s) u
      × (u.phase ≡ closed)
      × (u.serves ≡ false)
      × (u.connected n ≡ true)
      × (u.handled n ≡ true)
      × (u.leaving n ≡ false)
unfolding drop register
late_connection_stays {s} n before at waits = (
  _,
  next (next (next here (registers n waits)) (removes refl)) (returns (λ e. cc) serving refl),
  refl,
  refl,
  grind (arith, known),
  grind arith,
  grind (arith, known),
)
  where
    known :
        (s.connected n ≡ true) × (s.handled n ≡ false) × (s.leaving n ≡ false) × (s.conns n ≡ false)
    known = (Reach-Inv before listening-Inv).pending n waits

    serving : s.serves ≡ true
    serving = elim (Bool-cases s.serves) [
      | inl on ↦ on
      | inr off ↦ (let idle = (Reach-Inv before listening-Inv).served off in cc)
    ]
