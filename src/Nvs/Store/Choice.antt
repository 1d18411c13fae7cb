-- ===== src/Nvs/Store/Choice.antt =====
-- Which slot `choose_slot` selects.
use esp32_rid.Prelude.{
  ◌^◌, ◌<◌, ◌≡◌, refl, ap, ◌∙◌, ◌⊎◌, inl, inr, true, ◌||◌, Option, none, some, arith, ◌==◌,
  Option-cases, if_cases,
}
use esp32_rid.Nvs.Store.{
  SlotResult, LoadedConfig, choose_slot, choose_newer, choose_from, newer, distance, has_value,
}

-- How the selection goes: no slot has a value, one is chosen, or the two cannot be ordered.
abbrev pub Choice : SlotResult → SlotResult → Type 0
Choice left right =
    ((left.value ≡ none) × (right.value ≡ none) × ((choose_slot left right).value ≡ none))
    ⊎ ((l : LoadedConfig) × (left.value ≡ some l) × (choose_slot left right ≡ left))
    ⊎ ((r : LoadedConfig) × (right.value ≡ some r) × (choose_slot left right ≡ right))
    ⊎ ((has_value left.value ≡ true)
        × (has_value right.value ≡ true)
        × ((choose_slot left right).value ≡ none))

choose_newer_cases :
    (left : SlotResult) (l : LoadedConfig) (right : SlotResult) (r : LoadedConfig)
    → (choose_newer left l right r ≡ left)
      ⊎ (choose_newer left l right r ≡ right)
      ⊎ ((choose_newer left l right r).value ≡ none)
unfolding choose_newer
choose_newer_cases left l right r =
    if_cases (λ (s : SlotResult). (s ≡ left) ⊎ (s ≡ right) ⊎ (s.value ≡ none))
      (distance r.generation l.generation == 0 || distance r.generation l.generation == 0x80000000)
      (λ h. inr (inr refl))
      (λ h.
        if_cases (λ (s : SlotResult). (s ≡ left) ⊎ (s ≡ right) ⊎ (s.value ≡ none))
          (newer r.generation l.generation) (λ k. inr (inl refl)) (λ k. inl refl))

chosen :
    (left right : SlotResult) (x y : Option LoadedConfig)
    → left.value ≡ x
    → right.value ≡ y
    → choose_slot left right ≡ choose_from left x right y
unfolding choose_slot
chosen left right x y e f =
    ap (λ v. choose_from left v right right.value) e ∙ ap (λ v. choose_from left x right v) f

pub choose_cases : (left right : SlotResult) → Choice left right
unfolding choose_from
choose_cases left right = elim (Option-cases left.value) [
  | inl e ↦ elim (Option-cases right.value) [
    | inl f ↦ inl (e, f, ap (λ s. s.value) (chosen left right none none e f))
    | inr (r, f) ↦ inr (inr (inl (r, f, chosen left right none (some r) e f)))
  ]
  | inr (l, e) ↦ elim (Option-cases right.value) [
    | inl f ↦ inr (inl (l, e, chosen left right (some l) none e f))
    | inr (r, f) ↦
        (let c = chosen left right (some l) (some r) e f in
          elim (choose_newer_cases left l right r) [
            | inl g ↦ inr (inl (l, e, c ∙ g))
            | inr (inl g) ↦ inr (inr (inl (r, f, c ∙ g)))
            | inr (inr g) ↦
                inr (inr (inr (ap has_value e, ap has_value f, ap (λ s. s.value) c ∙ g)))
          ])
  ]
]

-- The newer of two generations is chosen, on either side.
newer_right :
    (left right : SlotResult) (l r : LoadedConfig)
    → l.generation < 2 ^ 32
    → r.generation < 2 ^ 32
    → newer r.generation l.generation ≡ true
    → choose_newer left l right r ≡ right
unfolding choose_newer newer
newer_right left right l r lb rb n = ground arith

newer_left :
    (left right : SlotResult) (l r : LoadedConfig)
    → l.generation < 2 ^ 32
    → r.generation < 2 ^ 32
    → newer l.generation r.generation ≡ true
    → choose_newer left l right r ≡ left
unfolding choose_newer newer
newer_left left right l r lb rb n = ground arith

pub choose_right :
    (left right : SlotResult) (r : LoadedConfig)
    → right.value ≡ some r
    → r.generation < 2 ^ 32
    → ((l : LoadedConfig)
        → left.value ≡ some l
        → (l.generation < 2 ^ 32) × (newer r.generation l.generation ≡ true))
    → choose_slot left right ≡ right
unfolding choose_from
choose_right left right r f rb n = elim (Option-cases left.value) [
  | inl e ↦ chosen left right none (some r) e f
  | inr (l, e) ↦
      (let k = n l e in
        chosen left right (some l) (some r) e f ∙ newer_right left right l r k.0 rb k.1)
]

pub choose_left :
    (left right : SlotResult) (l : LoadedConfig)
    → left.value ≡ some l
    → l.generation < 2 ^ 32
    → ((r : LoadedConfig)
        → right.value ≡ some r
        → (r.generation < 2 ^ 32) × (newer l.generation r.generation ≡ true))
    → choose_slot left right ≡ left
unfolding choose_from
choose_left left right l e lb n = elim (Option-cases right.value) [
  | inl f ↦ chosen left right (some l) none e f
  | inr (r, f) ↦
      (let k = n r f in
        chosen left right (some l) (some r) e f ∙ newer_left left right l r lb k.0 k.1)
]
