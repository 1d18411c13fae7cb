-- ===== src/Runtime/Touches.antt =====
-- What the parts of a tick leave alone.
use esp32_rid.Prelude.{ℕ, ◌≡◌, refl, ap, ◌∙◌, ◌≢◌, not, Option, none, some, List, if_cases}
use esp32_rid.Payload.{ScheduledPayload}
use esp32_rid.Runtime.{Runtime, Sink}
use esp32_rid.Runtime.Ticks.{
  Ticking, submit_loaded, use_counter, submit, encode_error, load_frame, deliver,
}

-- What a part of a tick does to the due times: nothing but to row `i`, and the configuration, the
-- aircraft and the start stay.
pub record Touches {E : Type 0} (i : ℕ) (row : ℕ → ℕ) (r r' : Runtime E) : Type 0 where
  pub own : r'.next_due i ≡ row
  pub others : (j : ℕ) → i ≢ j → r'.next_due j ≡ r.next_due j
  pub config : r'.config ≡ r.config
  pub aircraft : r'.aircraft ≡ r.aircraft
  pub running : r'.running ≡ r.running
  pub started : r'.started_ms ≡ r.started_ms

abbrev pub Keeps : {E : Type 0} → Runtime E → Runtime E → Type 0
Keeps r r' =
    (r'.next_due ≡ r.next_due)
    × (r'.config ≡ r.config)
    × (r'.aircraft ≡ r.aircraft)
    × (r'.running ≡ r.running)
    × (r'.started_ms ≡ r.started_ms)

module _ {E S : Type 0} (sink : Sink S) where
  submit-Keeps :
      (p : ScheduledPayload) (t : Ticking E S) → Keeps (t.runtime) (submit sink p t).runtime
  unfolding submit
  submit-Keeps p t =
      if_cases (λ (x : Ticking E S). Keeps (t.runtime) (x.runtime)) (not (sink p t.sink).0)
        (λ h. (refl, refl, refl, refl, refl)) (λ h. (refl, refl, refl, refl, refl))

  submit_loaded-Keeps :
      (loaded : Option ScheduledPayload) (t : Ticking E S)
      → Keeps (t.runtime) (submit_loaded sink loaded t).runtime
  unfolding submit_loaded encode_error
  submit_loaded-Keeps none t = (refl, refl, refl, refl, refl)
  submit_loaded-Keeps (some p) t = submit-Keeps p t

  pub deliver-Keeps :
      (p : ScheduledPayload) (bytes : Option (List ℕ)) (frame : ℕ → List ℕ → Option (List ℕ))
      (t : Ticking E S)
      → Keeps (t.runtime) (deliver sink p bytes frame t).runtime
  unfolding deliver encode_error
  deliver-Keeps p none frame t = (refl, refl, refl, refl, refl)
  deliver-Keeps p (some bytes) frame t =
      submit_loaded-Keeps (load_frame p (frame t.runtime.counter bytes)) (use_counter t)

module _ {E : Type 0} where
  -- Nothing, and two parts one after the other.
  pub nothing-Touches : (i : ℕ) (r : Runtime E) → Touches i (r.next_due i) r r
  nothing-Touches i r = record {
    own = refl;
    others = λ j ne. refl;
    config = refl;
    aircraft = refl;
    running = refl;
    started = refl;
  }

  pub both-Touches :
      {i : ℕ} {row row' : ℕ → ℕ} {r1 r2 r3 : Runtime E}
      → Touches i row r1 r2
      → Touches i row' r2 r3
      → Touches i row' r1 r3
  both-Touches x y = record {
    own = y.own;
    others = λ j ne. y.others j ne ∙ x.others j ne;
    config = y.config ∙ x.config;
    aircraft = y.aircraft ∙ x.aircraft;
    running = y.running ∙ x.running;
    started = y.started ∙ x.started;
  }

  pub Keeps-Touches :
      {i : ℕ} {row : ℕ → ℕ} {r1 r2 r3 : Runtime E}
      → Touches i row r1 r2
      → Keeps r2 r3
      → Touches i row r1 r3
  Keeps-Touches {i} x (d, c, a, n, s) = record {
    own = ap (λ f. f i) d ∙ x.own;
    others = λ j ne. ap (λ f. f j) d ∙ x.others j ne;
    config = c ∙ x.config;
    aircraft = a ∙ x.aircraft;
    running = n ∙ x.running;
    started = s ∙ x.started;
  }
