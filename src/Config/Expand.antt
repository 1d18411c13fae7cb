-- ===== src/Config/Expand.antt =====
-- The aircraft that a valid configuration expands into.
use esp32_rid.Prelude.{
  ℕ, zero, suc, ◌+◌, ◌%◌, ◌^◌, ◌≤◌, ◌<◌, ◌≡◌, refl, ap, ◌≢◌, ◌⊎◌, inl, inr, true, false, Option,
  none, some, List, [], ◌∷◌, ◌++◌, arith, Bool-cases, All, length, length-append, All-append,
}
use mathlib.Core.List.{Mem, mem-cons_self, mem-cons_of_mem, mem-append_left, mem-append_right}
use esp32_rid.Identity.{Digest, derive_test_id}
use esp32_rid.Config.{
  ConfigError, identity_derivation_failed, GroupConfig, SystemConfig, AircraftConfig, ok, validate,
  expanded, failed, expand_group, expand_groups, validate_and_expand, is_empty, max_aircraft,
}
use esp32_rid.Config.Valid.{total, validate_iff}

ok_cases : (e : ConfigError) → (e ≡ ok) ⊎ (e ≢ ok)
ok_cases ok = inl refl
ok_cases _ = inr (λ e. cc)

empty_nil : (xs : List ℕ) → is_empty xs ≡ true → xs ≡ []
empty_nil [] h = refl
empty_nil (x ∷ xs) h = cc

nonempty_cons : (xs : List ℕ) → is_empty xs ≡ false → xs ≢ []
nonempty_cons [] h = λ k. cc
nonempty_cons (x ∷ xs) h = λ k. ground (arith, k)

-- An aircraft of the list whose identity is empty; and a list that has none.
abbrev pub Underived : List AircraftConfig → Type 0
Underived fleet = (a : AircraftConfig) × Mem a fleet × (a.identity ≡ [])

abbrev pub Derived : List AircraftConfig → Type 0
Derived = All (λ a. a.identity ≢ [])

-- Nothing, for want of an identity, or the whole list.
abbrev Expansion : List AircraftConfig → Option (List AircraftConfig) → Type 0
Expansion all r = ((r ≡ none) × Underived all) ⊎ ((r ≡ some all) × Derived all)

module _ (sha256 : Digest) (device : List ℕ) where
  -- The aircraft that group `g` is to have, numbered from `first`.
  abbrev pub members : GroupConfig → ℕ → ℕ → ℕ → List AircraftConfig
  members g group_index zero first = []
  members g group_index (suc n) first =
      record {
        identity = derive_test_id sha256 device g.name first g.protocol;
        group_index = group_index % 2 ^ 16;
        instance_index = first;
        protocol = g.protocol;
        transport = g.transport;
        wifi_mode = g.wifi_mode;
      }
      ∷ members g group_index n (first + 1)

  -- All groups, one after the other.
  abbrev pub fleet : ℕ → List GroupConfig → List AircraftConfig
  fleet group_index [] = []
  fleet group_index (g ∷ gs) = members g group_index g.count 0 ++ fleet (group_index + 1) gs

  length-members :
      (g : GroupConfig) (group_index n first : ℕ) → length (members g group_index n first) ≡ n
  length-members g group_index zero first = refl
  length-members g group_index (suc n) first = ap suc (length-members g group_index n (first + 1))

  length-fleet :
      (group_index : ℕ) (gs : List GroupConfig) → length (fleet group_index gs) ≡ total gs
  length-fleet group_index [] = refl
  length-fleet group_index (g ∷ gs) = omega (
    arith,
    length-append (members g group_index g.count 0) (fleet (group_index + 1) gs),
    length-members g group_index g.count 0,
    length-fleet (group_index + 1) gs,
  )

  expand_group_cases :
      (g : GroupConfig) (group_index n first : ℕ)
      → Expansion (members g group_index n first) (expand_group sha256 device g group_index n first)
  unfolding expand_group
  expand_group_cases g group_index zero first = inr (refl, tt)
  expand_group_cases g group_index (suc n) first =
      let id = derive_test_id sha256 device g.name first g.protocol in
      elim (Bool-cases (is_empty id)) [
        | inl e ↦ inl (rw e, (_, mem-cons_self, empty_nil id e))
        | inr e ↦ elim (expand_group_cases g group_index n (first + 1)) [
          | inl (f, (a, m, k)) ↦ inl (rw (e, f), (a, mem-cons_of_mem _ m, k))
          | inr (f, d) ↦ inr (rw (e, f), (nonempty_cons id e, d))
        ]
      ]

  expand_groups_cases :
      (group_index : ℕ) (gs : List GroupConfig)
      → Expansion (fleet group_index gs) (expand_groups sha256 device group_index gs)
  unfolding expand_groups
  expand_groups_cases group_index [] = inr (refl, tt)
  expand_groups_cases group_index (g ∷ gs) = elim (expand_group_cases g group_index g.count 0) [
    | inl (e, (a, m, k)) ↦ inl (rw (e, expand_groups), (a, mem-append_left _ m, k))
    | inr (e, d) ↦ elim (expand_groups_cases (group_index + 1) gs) [
      | inl (f, (a, m, k)) ↦ inl (rw (e, f, expand_groups), (a, mem-append_right _ m, k))
      | inr (f, d') ↦ inr (
        rw (e, f, expand_groups),
        All-append (λ a. a.identity ≢ []) (members g group_index g.count 0)
            (fleet (group_index + 1) gs) d d',
      )
    ]
  ]

  -- An invalid configuration fails with the error of `validate`. A valid one fails only with
  -- `identity_derivation_failed`, and only if the identity of one of the aircraft that its groups ask
  -- for is empty. If none is, it gives all of them, group by group and instance by instance, between
  -- 1 and 50 in all.
  pub validate_and_expand_lem :
      (c : SystemConfig)
      → let result = validate_and_expand sha256 device c in
        ((validate c ≢ ok) × (result ≡ failed (validate c)))
        ⊎ ((validate c ≡ ok)
            × (result ≡ failed identity_derivation_failed)
            × Underived (fleet 0 c.groups))
        ⊎ ((validate c ≡ ok)
            × (result ≡ expanded (fleet 0 c.groups))
            × Derived (fleet 0 c.groups)
            × (0 < length (fleet 0 c.groups))
            × (length (fleet 0 c.groups) ≤ max_aircraft))
  unfolding validate_and_expand
  validate_and_expand_lem c = elim (ok_cases (validate c)) [
    | inl e ↦
        let v = (validate_iff c).0 e in
        elim (expand_groups_cases 0 c.groups) [
          | inl (f, u) ↦ inr (inl (e, rw (e, f, validate_and_expand), u))
          | inr (f, d) ↦ inr (
              inr (
                e,
                rw (e, f, validate_and_expand),
                d,
                omega (arith, length-fleet 0 c.groups, v.some_aircraft),
                omega (arith, length-fleet 0 c.groups, v.few_aircraft),
              ))
        ]
    | inr ne ↦ inl (ne, refused (validate c) refl ne)
  ]
    where
      refused :
          (e : ConfigError)
          → validate c ≡ e
          → e ≢ ok
          → validate_and_expand sha256 device c ≡ failed e
      refused e h ne = ground arith
