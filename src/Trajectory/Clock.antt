-- ===== src/Trajectory/Clock.antt =====
-- `TrajectoryEngine::extend_elapsed` of components/rid_trajectory/trajectory.cpp: a 32-bit clock
-- extended to 64 bits, for each of 50 instances.
pub mod Tests
use esp32_rid.Prelude.{
  le→leb, All-map, ℕ, zero, suc, ◌+◌, ◌-◌, ◌*◌, ◌/◌, ◌%◌, ◌^◌, ◌≤◌, ◌<◌, ◌≡◌, refl, sym, ap, ◌∙◌,
  ◌≢◌, ◌↔◌, ◌⊎◌, inl, inr, Bool, true, false, not, ◌&&◌, ◌||◌, Option, none, some, List, [], ◌∷◌,
  ◌++◌, map, append-nil, append_assoc, arith, ltb, leb, ◌==◌, if◌then◌else◌, ltb→lt, lt→ltb, leb→le,
  ==_iff, Bool-cases, Option-cases, if_cases, All, length, get_or, set, take, drop, replicate,
  erase_at, length-append, length-set, length-take, length-drop, length-replicate, length-erase_at,
  length-erase_at-le, take-append, drop-append, take-append-drop, All-append, All-erase_at,
  All-get_or,
}
use esp32_rid.Prelude.Arrays.{update, update_self}

pub record Clock : Type 0 where
  pub last_elapsed : ℕ → ℕ
  pub wrap_offset : ℕ → ℕ
  pub initialized : ℕ → Bool

-- `TrajectoryEngine::TrajectoryEngine`.
unfoldable pub started : Clock
started = record { last_elapsed = λ i. 0; wrap_offset = λ i. 0; initialized = λ i. false }

-- The offset of a slot after a sample: 2 ^ 32 more when the clock has wrapped.
unfoldable pub next_offset : Bool → ℕ → ℕ → ℕ → ℕ
next_offset initialized last offset elapsed_ms =
    if initialized && ltb elapsed_ms last && ltb (2 ^ 31) (last - elapsed_ms)
    then (offset + 2 ^ 32) % 2 ^ 64
    else offset

unfoldable pub extend_elapsed : Clock → ℕ → ℕ → ℕ × Clock
unfolding next_offset
extend_elapsed c instance_index elapsed_ms =
    let slot = instance_index % 50 in
    let offset =
      next_offset (c.initialized slot) (c.last_elapsed slot) (c.wrap_offset slot) elapsed_ms in
    (
      (offset + elapsed_ms) % 2 ^ 64,
      record {
        last_elapsed = update c.last_elapsed slot elapsed_ms;
        wrap_offset = update c.wrap_offset slot offset;
        initialized = update c.initialized slot true;
      },
    )

-- The samples of one instance at times of a clock that does not wrap, with what each gave.
unfoldable pub samples : Clock → ℕ → List ℕ → List ℕ
samples c instance_index [] = []
samples c instance_index (time ∷ times) =
    let (extended, c') = extend_elapsed c instance_index (time % 2 ^ 32) in
    extended ∷ samples c' instance_index times

-- Times in order, each less than 2 ^ 31 ms after the one before, and short of 2 ^ 64.
abbrev pub Steady : ℕ → List ℕ → Type 0
Steady previous [] = Unit
Steady previous (time ∷ times) =
    (previous ≤ time) × (time < previous + 2 ^ 31) × (time < 2 ^ 64) × Steady time times

-- The slot was last sampled at `previous`, and its offset is the whole turns since `base`.
record At (base previous : ℕ) (c : Clock) (slot : ℕ) : Type 0 where
  set_up : c.initialized slot ≡ true
  last : c.last_elapsed slot ≡ previous % 2 ^ 32
  turns : c.wrap_offset slot + base + previous % 2 ^ 32 ≡ previous

next_offset-At :
    (base previous time offset : ℕ)
    → offset + base + previous % 2 ^ 32 ≡ previous
    → previous ≤ time
    → time < previous + 2 ^ 31
    → time < 2 ^ 64
    → next_offset true (previous % 2 ^ 32) offset (time % 2 ^ 32) + base + time % 2 ^ 32 ≡ time
unfolding next_offset
next_offset-At base previous time offset t h k w = ground arith

extend_elapsed-At :
    (base previous time : ℕ) (c : Clock) (instance_index : ℕ)
    → At base previous c (instance_index % 50)
    → previous ≤ time
    → time < previous + 2 ^ 31
    → time < 2 ^ 64
    → let (extended, c') = extend_elapsed c instance_index (time % 2 ^ 32) in
      (extended ≡ time - base) × At base time c' (instance_index % 50)
unfolding extend_elapsed
extend_elapsed-At base previous time c instance_index v h k w =
    let slot = instance_index % 50 in
    let offset =
      next_offset (c.initialized slot) (c.last_elapsed slot) (c.wrap_offset slot) (time % 2 ^ 32) in
    let e : next_offset true (previous % 2 ^ 32) (c.wrap_offset slot) (time % 2 ^ 32) ≡ offset =
      rw (v.set_up, v.last) refl in
    let n : offset + base + time % 2 ^ 32 ≡ time =
      omega (arith, e, next_offset-At base previous time (c.wrap_offset slot) v.turns h k w) in
    (
      omega arith,
      record {
        set_up = update_self c.initialized slot true;
        last = update_self c.last_elapsed slot (time % 2 ^ 32);
        turns = omega (arith, update_self c.wrap_offset slot offset);
      },
    )

first-At :
    (time : ℕ) (instance_index : ℕ)
    → time < 2 ^ 64
    → let base = time - time % 2 ^ 32 in
      let (extended, c') = extend_elapsed started instance_index (time % 2 ^ 32) in
      (extended ≡ time - base) × At base time c' (instance_index % 50)
unfolding extend_elapsed started next_offset
first-At time instance_index w =
    let slot = instance_index % 50 in
    (
      omega arith,
      record {
        set_up = update_self (λ i. false) slot true;
        last = update_self {A = ℕ} (λ i. 0) slot (time % 2 ^ 32);
        turns = omega (arith, update_self {A = ℕ} (λ i. 0) slot 0);
      },
    )

samples-At :
    (base previous : ℕ) (times : List ℕ) (c : Clock) (instance_index : ℕ)
    → At base previous c (instance_index % 50)
    → Steady previous times
    → samples c instance_index times ≡ map (λ time. time - base) times
unfolding samples
samples-At base previous [] c instance_index v s = refl
samples-At base previous (time ∷ times) c instance_index v s =
    let (e, v') = extend_elapsed-At base previous time c instance_index v s.0 s.1 s.2 in
    let rest =
      samples-At base time times (extend_elapsed c instance_index (time % 2 ^ 32)).1 instance_index
        v' s.3 in
    ap (λ x. x ∷ samples (extend_elapsed c instance_index (time % 2 ^ 32)).1 instance_index times) e
    ∙ ap (◌∷◌ (time - base)) rest

-- The 32-bit readings of a clock, taken in order and each less than 2 ^ 31 ms after the one before,
-- are extended to the clock's own time, short of the whole turns of 2 ^ 32 ms before the first.
pub samples_lem :
    (first : ℕ) (times : List ℕ) (instance_index : ℕ)
    → first < 2 ^ 64
    → Steady first times
    → samples started instance_index (first ∷ times)
      ≡ map (λ time. time - (first - first % 2 ^ 32)) (first ∷ times)
unfolding samples
samples_lem first times instance_index w s =
    let base = first - first % 2 ^ 32 in
    let (e, v) = first-At first instance_index w in
    let rest =
      samples-At base first times (extend_elapsed started instance_index (first % 2 ^ 32)).1
        instance_index v s in
    ap
      (λ x.
        x ∷ samples (extend_elapsed started instance_index (first % 2 ^ 32)).1 instance_index times)
      e
    ∙ ap (◌∷◌ (first - base)) rest
