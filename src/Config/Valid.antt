-- ===== src/Config/Valid.antt =====
-- What `validate` accepts, described apart from the order of its checks.
use esp32_rid.Config.{kind_value}
use esp32_rid.Config.{MessageKind, effective_period}
use esp32_rid.Config.{is_empty}
use esp32_rid.Config.{ok}
use esp32_rid.Config.{check_group, validate, validate_groups}
use esp32_rid.Prelude.{
  ℕ, zero, suc, ◌+◌, ◌≤◌, ◌<◌, ◌≡◌, refl, sym, ◌≢◌, ◌↔◌, ◌⊎◌, Bool, true, false, ◌&&◌, Option, none,
  some, List, [], ◌∷◌, arith, All, get_or,
}
use esp32_rid.Prelude.Int.{ℤ, pos, negsuc}
use esp32_rid.Model.{gb46750, open_drone_id, beacon, is_wifi, is_ble, GeoPoint}
use esp32_rid.Trajectory.{valid_trajectory}
use esp32_rid.Config.{
  GroupConfig, SystemConfig, valid_period, valid_site, supported, bytes_eq, contains, period_ok,
  periods_ok, max_aircraft,
}

-- A period between 100 ms and a minute.
abbrev pub InRange : ℤ → Type 0
InRange (pos n) = (100 ≤ n) × (n ≤ 60000)
InRange (negsuc n) = ⊥

abbrev pub OptionInRange : Option ℤ → Type 0
OptionInRange none = Unit
OptionInRange (some p) = InRange p

-- OpenDroneID over any known transport, GB 46750 over Wi-Fi only, and Beacon frames only.
abbrev pub Supported : GroupConfig → Type 0
Supported g =
    (g.wifi_mode ≡ beacon)
    × (((g.protocol ≡ open_drone_id) × ((is_wifi g.transport ≡ true) ⊎ (is_ble g.transport ≡ true)))
        ⊎ ((g.protocol ≡ gb46750) × (is_wifi g.transport ≡ true)))

pub record GroupValid (g : GroupConfig) : Type 0 where
  pub named : g.name ≢ []
  pub counted : 0 < g.count
  pub combination : Supported g
  pub moving : valid_trajectory g.trajectory ≡ true
  pub period : OptionInRange g.default_period
  pub overrides : All OptionInRange g.period_overrides

abbrev pub total : List GroupConfig → ℕ
total [] = 0
total (g ∷ gs) = g.count + total gs

-- No two groups have one name.
abbrev pub Distinct : List GroupConfig → Type 0
Distinct [] = Unit
Distinct (g ∷ gs) = All (λ h. h.name ≢ g.name) gs × Distinct gs

pub record Valid (c : SystemConfig) : Type 0 where
  pub located : (site : GeoPoint) × (c.site ≡ some site) × (valid_site site ≡ true)
  pub period : InRange c.default_period
  pub groups : All GroupValid c.groups
  pub distinct : Distinct c.groups
  pub some_aircraft : 0 < total c.groups
  pub few_aircraft : total c.groups ≤ max_aircraft

pub valid_period_iff : (p : ℤ) → (valid_period p ≡ true) ↔ InRange p
unfolding valid_period
valid_period_iff (pos n) = (λ h. ground arith, λ h. ground arith)
valid_period_iff (negsuc n) = (λ h. cc, λ h. absurd h)

period_ok_iff : (p : Option ℤ) → (period_ok p ≡ true) ↔ OptionInRange p
period_ok_iff none = (λ h. tt, λ h. refl)
period_ok_iff (some p) = valid_period_iff p

and_iff : (a b : Bool) → ((a && b) ≡ true) ↔ ((a ≡ true) × (b ≡ true))
and_iff a b = (λ h. ground arith, λ h. ground arith)

pub periods_ok_iff : (ps : List (Option ℤ)) → (periods_ok ps ≡ true) ↔ All OptionInRange ps
unfolding periods_ok
periods_ok_iff [] = (λ h. tt, λ h. refl)
periods_ok_iff (p ∷ ps) = (
  λ h.
      let both = (and_iff (period_ok p) (periods_ok ps)).0 h in
      ((period_ok_iff p).0 both.0, (periods_ok_iff ps).0 both.1),
  λ h.
      (and_iff (period_ok p) (periods_ok ps)).1
        ((period_ok_iff p).1 h.0, (periods_ok_iff ps).1 h.1),
)

pub bytes_eq_iff : (xs ys : List ℕ) → (bytes_eq xs ys ≡ true) ↔ (xs ≡ ys)
unfolding bytes_eq
bytes_eq_iff [] [] = (λ h. refl, λ h. refl)
bytes_eq_iff [] (y ∷ ys) = (λ h. cc, λ h. cc)
bytes_eq_iff (x ∷ xs) [] = (λ h. cc, λ h. cc)
bytes_eq_iff (x ∷ xs) (y ∷ ys) =
    (λ h. ground (arith, bytes_eq_iff xs ys), λ h. ground (arith, bytes_eq_iff xs ys))

supported_iff : (g : GroupConfig) → (supported g ≡ true) ↔ Supported g
unfolding supported
supported_iff g = (λ h. ground arith, λ h. ground arith)

contains_iff :
    (ns : List (List ℕ)) (name : List ℕ) → (contains ns name ≡ false) ↔ All (λ n. n ≢ name) ns
unfolding contains
contains_iff [] name = (λ h. tt, λ h. refl)
contains_iff (n ∷ ns) name = (
  λ h. ground (arith, bytes_eq_iff n name, contains_iff ns name),
  λ h. ground (arith, bytes_eq_iff n name, contains_iff ns name),
)

is_empty_iff : (name : List ℕ) → (is_empty name ≡ false) ↔ (name ≢ [])
is_empty_iff [] = (λ h. cc, λ h. absurd (h refl))
is_empty_iff (c ∷ cs) = (λ h e. cc, λ h. refl)

check_group_iff :
    (names : List (List ℕ)) (g : GroupConfig)
    → (check_group names g ≡ ok) ↔ (GroupValid g × All (λ n. n ≢ g.name) names)
check_group_iff names g =
    (λ h. (accepted h, (contains_iff names g.name).0 (fresh h)), λ h. refused h.0 h.1)
  where
    fresh : check_group names g ≡ ok → contains names g.name ≡ false
    fresh h = unfold check_group in ground arith

    accepted : check_group names g ≡ ok → GroupValid g
    accepted h = record {
      named = (is_empty_iff g.name).0 (unfold check_group in ground arith);
      counted = unfold check_group in ground arith;
      combination = (supported_iff g).0 (unfold check_group in ground arith);
      moving = unfold check_group in ground arith;
      period = (period_ok_iff g.default_period).0 (unfold check_group in ground arith);
      overrides = (periods_ok_iff g.period_overrides).0 (unfold check_group in ground arith);
    }

    refused : GroupValid g → All (λ n. n ≢ g.name) names → check_group names g ≡ ok
    refused v d =
        unfold check_group in
        ground (
          arith,
          is_empty_iff g.name,
          (contains_iff names g.name).1 d,
          (supported_iff g).1 v.combination,
          (period_ok_iff g.default_period).1 v.period,
          (periods_ok_iff g.period_overrides).1 v.overrides,
        )

-- The names that are not among earlier ones and not equal to one more.
All-ne-cons :
    (name : List ℕ) (names : List (List ℕ)) (gs : List GroupConfig)
    → All (λ g. All (λ n. n ≢ g.name) (name ∷ names)) gs
      ↔ (All (λ g. g.name ≢ name) gs × All (λ g. All (λ n. n ≢ g.name) names) gs)
All-ne-cons name names [] = (λ h. (tt, tt), λ h. tt)
All-ne-cons name names (g ∷ gs) = (
  λ h.
      let rest = (All-ne-cons name names gs).0 h.1 in
      ((λ e. h.0.0 (sym e), rest.0), (h.0.1, rest.1)),
  λ h. ((λ e. h.0.0 (sym e), h.1.0), (All-ne-cons name names gs).1 (h.0.1, h.1.1)),
)

abbrev ValidFrom : List (List ℕ) → ℕ → List GroupConfig → Type 0
ValidFrom names n gs =
    All GroupValid gs
    × All (λ g. All (λ m. m ≢ g.name) names) gs
    × Distinct gs
    × (0 < n + total gs)
    × (n + total gs ≤ max_aircraft)

validate_groups_ok :
    (names : List (List ℕ)) (n : ℕ) (gs : List GroupConfig)
    → n ≤ max_aircraft
    → validate_groups names n gs ≡ ok
    → ValidFrom names n gs
unfolding validate_groups
validate_groups_ok names n [] h e = (tt, tt, tt, ground arith, omega arith)
validate_groups_ok names n (g ∷ gs) h e =
    let checked : check_group names g ≡ ok = ground arith in
    let room : n + g.count ≤ max_aircraft = ground arith in
    let this = (check_group_iff names g).0 checked in
    let rest = validate_groups_ok (g.name ∷ names) (n + g.count) gs room (ground arith) in
    let fresh = (All-ne-cons g.name names gs).0 rest.1 in
    (
      (this.0, rest.0),
      (this.1, fresh.1),
      (fresh.0, rest.2),
      omega (arith, rest.3),
      omega (arith, rest.4),
    )

validate_groups_valid :
    (names : List (List ℕ)) (n : ℕ) (gs : List GroupConfig)
    → ValidFrom names n gs
    → validate_groups names n gs ≡ ok
unfolding validate_groups
validate_groups_valid names n [] v = ground arith
validate_groups_valid names n (g ∷ gs) v =
    let checked = (check_group_iff names g).1 (v.0.0, v.1.0) in
    let rest =
      validate_groups_valid (g.name ∷ names) (n + g.count) gs
        (v.0.1, (All-ne-cons g.name names gs).1 (v.2.0, v.1.1), v.2.1, omega arith, omega arith) in
    ground (arith, checked, rest)

All-none : (gs : List GroupConfig) → All (λ g. All (λ n. n ≢ g.name) []) gs
All-none [] = tt
All-none (g ∷ gs) = (tt, All-none gs)

-- `validate` accepts a configuration exactly when it has a valid site, a default period in range,
-- groups that are each valid and differently named, and between 1 and 50 aircraft in all.
pub validate_iff : (c : SystemConfig) → (validate c ≡ ok) ↔ Valid c
validate_iff c = (sound c.site refl, complete)
  where
    sound : (s : Option GeoPoint) → c.site ≡ s → validate c ≡ ok → Valid c
    sound none e h = absurd (unfold validate in cc (rw (e, validate) at h))
    sound (some site) e h =
        let groups =
          validate_groups_ok [] 0 c.groups (omega arith) (unfold validate in ground arith) in
        record {
          located = (site, e, unfold validate in ground arith);
          period = (valid_period_iff c.default_period).0 (unfold validate in ground arith);
          groups = groups.0;
          distinct = groups.2;
          some_aircraft = omega (arith, groups.3);
          few_aircraft = omega (arith, groups.4);
        }

    complete : Valid c → validate c ≡ ok
    complete v =
        unfold validate in
        ground (
          arith,
          v.located,
          (valid_period_iff c.default_period).1 v.period,
          validate_groups_valid [] 0 c.groups (
            v.groups,
            All-none c.groups,
            v.distinct,
            omega (arith, v.some_aircraft),
            omega (arith, v.few_aircraft),
          ),
        )

get_or-InRange :
    (ps : List (Option ℤ)) (i : ℕ) → All OptionInRange ps → OptionInRange (get_or ps i none)
get_or-InRange [] i h = tt
get_or-InRange (p ∷ ps) zero h = h.0
get_or-InRange (p ∷ ps) (suc i) h = get_or-InRange ps i h.1

chosen :
    (override group : Option ℤ) (system : ℤ)
    → OptionInRange override
    → OptionInRange group
    → InRange system
    → InRange (elim override as (λ _. ℤ) [
      | some p ↦ p
      | none ↦ elim group as (λ _. ℤ) [ some p ↦ p | none ↦ system ]
    ])
chosen (some p) group system a b c = a
chosen none (some p) system a b c = b
chosen none none system a b c = c

All-effective :
    (c : SystemConfig) (kind : MessageKind)
    → InRange c.default_period
    → (gs : List GroupConfig) → All GroupValid gs
    → All (λ g. InRange (effective_period c g kind)) gs
unfolding effective_period
All-effective c kind p [] h = tt
All-effective c kind p (g ∷ gs) h = (
  chosen (get_or g.period_overrides (kind_value kind) none) g.default_period c.default_period
      (get_or-InRange g.period_overrides (kind_value kind) h.0.overrides) h.0.period p,
  All-effective c kind p gs h.1,
)

-- The period that a message of a valid configuration is sent with lies between 100 ms and a
-- minute, whichever of the three settings it comes from.
pub effective_period-InRange :
    (c : SystemConfig) (kind : MessageKind)
    → validate c ≡ ok
    → All (λ g. InRange (effective_period c g kind)) c.groups
effective_period-InRange c kind h =
    let v = (validate_iff c).0 h in All-effective c kind v.period c.groups v.groups
