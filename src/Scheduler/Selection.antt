-- ===== src/Scheduler/Selection.antt =====
-- Which payload `pop_next` hands out, and which one `enqueue` gives up when the queue is full.
use mathlib.Core.List.{Perm, perm_middle}
use mathlib.Core.List.Perm
use mathlib.Core.Path.{subst}
use esp32_rid.Prelude.{
  ℕ, ◌≤◌, ◌<◌, ◌≡◌, refl, sym, ap, ◌≢◌, ◌↔◌, ◌⊎◌, inl, inr, true, false, Option, none, some, List,
  [], ◌∷◌, ◌++◌, append-nil, arith, if◌then◌else◌, ==_iff, Bool-cases, All, length, erase_at,
  All-append, All-erase_at, All-get_or,
}
use esp32_rid.Prelude.Arrays.{update, update_self, update_ne}
use esp32_rid.Model.{Transport, transport_value}
use esp32_rid.Payload.{
  ScheduledPayload, TransportStats, older_than, is_expired, ok, add_dropped, blank,
}
use esp32_rid.Payload.Order.{older_than_asymm, not_older_trans}
use native.Mathlib.Decide.{ℕ_discrete}
use esp32_rid.Slots.{slot}
use esp32_rid.Slots.Earliest.{earliest_lem}
use esp32_rid.Slots.Erase.{erase_at-perm, NoneOlderThan, All-of_NoneOlder}
use esp32_rid.Scheduler.{
  Scheduler, TransportQueue, enqueue, pop_next, store, expire, take_next, transport_index,
  min_element,
}
use esp32_rid.Scheduler.Queue.{min_element_bound, popped}

-- The payloads that have not expired, in order.
abbrev pub live : ℕ → List ScheduledPayload → List ScheduledPayload
live now_ms [] = []
live now_ms (x ∷ xs) = if is_expired now_ms x then live now_ms xs else x ∷ live now_ms xs

expire-live :
    (now_ms : ℕ) (xs : List ScheduledPayload) (c : TransportStats)
    → (expire now_ms xs c).payloads ≡ live now_ms xs
unfolding expire
expire-live now_ms [] c = refl
expire-live now_ms (x ∷ xs) c = elim (Bool-cases (is_expired now_ms x)) [
  | inl e ↦ rw e (expire-live now_ms xs (add_dropped c))
  | inr e ↦ rw e (ap (◌∷◌ x) (expire-live now_ms xs c))
]

All-live :
    (now_ms : ℕ) (xs : List ScheduledPayload)
    → All (λ p. is_expired now_ms p ≡ false) (live now_ms xs)
All-live now_ms [] = tt
All-live now_ms (x ∷ xs) = elim (Bool-cases (is_expired now_ms x)) [
  | inl e ↦ rw e (All-live now_ms xs)
  | inr e ↦ rw e (e, All-live now_ms xs)
]

-- The first minimum of a non-empty list.
pub min_element_lem :
    (xs : List ScheduledPayload) → 0 < length xs → NoneOlderThan (slot xs (min_element xs)) xs
unfolding min_element
min_element_lem xs h = All-of_NoneOlder _ xs (earliest_lem (length xs) xs h).1

-- What may come of a queue whose unexpired payloads are `xs`: nothing from an empty one, and
-- otherwise one of them that no remaining one is older than, with the others left.
abbrev pub Picks :
    ℕ → List ScheduledPayload → Option ScheduledPayload → List ScheduledPayload → Type 0
Picks now_ms xs result left =
    ((xs ≡ []) × (result ≡ none) × (left ≡ []))
    ⊎ ((p : ScheduledPayload) × (result ≡ some p)
        × (is_expired now_ms p ≡ false)
        × NoneOlderThan p left
        × Perm (p ∷ left) xs)

take_next-Picks :
    (now_ms : ℕ) (xs : List ScheduledPayload) (c : TransportStats)
    → All (λ p. is_expired now_ms p ≡ false) xs
    → let (result, left) = take_next now_ms (record { payloads = xs; stats = c }) in
      Picks now_ms xs result left.payloads
unfolding take_next
take_next-Picks now_ms [] c h = inl (refl, refl, refl)
take_next-Picks now_ms (x ∷ xs) c h =
    let all = x ∷ xs in
    let i = min_element all in
    let bound = min_element_bound all (omega arith) in
    inr (
      slot all i,
      refl,
      All-get_or _ i all blank bound h,
      All-erase_at _ i all (min_element_lem all (omega arith)),
      erase_at-perm i all bound,
    )

popped-Picks :
    (now_ms : ℕ) (q : TransportQueue)
    → let (result, left) = popped now_ms q in
      Picks now_ms (live now_ms q.payloads) result left.payloads
popped-Picks now_ms q =
    let gone = expire now_ms q.payloads q.stats in
    let same = expire-live now_ms q.payloads q.stats in
    subst (λ xs. Picks now_ms xs (popped now_ms q).0 (popped now_ms q).1.payloads) same
      (take_next-Picks now_ms gone.payloads gone.stats
        (subst (All (λ p. is_expired now_ms p ≡ false)) (sym same) (All-live now_ms q.payloads)))

-- `pop_next` on a transport of the table hands out an unexpired payload of its queue than which
-- no other unexpired one is older, and leaves exactly the other unexpired ones; it hands out
-- nothing only if every payload has expired. The other queues stay as they were.
pub pop_next-Picks :
    (s : Scheduler) (t : Transport) (now_ms : ℕ) {i : ℕ}
    → transport_index t ≡ some i
    → let (result, s') = pop_next s t now_ms in
      Picks now_ms (live now_ms (s.queues i).payloads) result (s'.queues i).payloads
      × ((j : ℕ) → i ≢ j → s'.queues j ≡ s.queues j)
unfolding pop_next
pop_next-Picks s t now_ms {i} e =
    let left = (popped now_ms (s.queues i)).1 in
    rw (e, pop_next)
      (
        rw (update_self s.queues i left) (popped-Picks now_ms (s.queues i)),
        λ j ne. update_ne s.queues i j left ne,
      )

-- What a full queue keeps of its payloads and a new one.
abbrev pub Evicts : ScheduledPayload → List ScheduledPayload → List ScheduledPayload → Type 0
Evicts p xs left =
    (victim : ScheduledPayload) × NoneOlderThan victim left × Perm (victim ∷ left) (p ∷ xs)

newcomer_out :
    (p : ScheduledPayload) (xs : List ScheduledPayload)
    → 0 < length xs
    → older_than p (slot xs (min_element xs)) ≡ true
    → Evicts p xs xs
newcomer_out p xs h e = (p, All-of_NoneOlder p xs older, Perm.refl (p ∷ xs))
  where
    older : (j : ℕ) → j < length xs → older_than (slot xs j) p ≡ false
    older j lt =
        not_older_trans (slot xs j) (slot xs (min_element xs)) p
          (All-get_or _ j xs blank lt (min_element_lem xs h))
          (older_than_asymm p (slot xs (min_element xs)) e)

oldest_out :
    (p : ScheduledPayload) (xs : List ScheduledPayload)
    → 0 < length xs
    → older_than p (slot xs (min_element xs)) ≡ false
    → Evicts p xs (erase_at (min_element xs) xs ++ (p ∷ []))
oldest_out p xs h e =
    let i = min_element xs in
    let left = erase_at i xs in
    (
      slot xs i,
      All-append _ left (p ∷ []) (All-erase_at _ i xs (min_element_lem xs h)) (e, tt),
      Perm.trans (perm_middle (slot xs i ∷ left) [])
          (Perm.cons p (rw append-nil (erase_at-perm i xs (min_element_bound xs h)))),
    )

store_full :
    (capacity : ℕ) (p : ScheduledPayload) (q : TransportQueue)
    → 0 < capacity
    → length q.payloads ≡ capacity
    → Evicts p q.payloads (store capacity p q).payloads
unfolding store
store_full capacity p q h e =
    elim (Bool-cases (older_than p (slot q.payloads (min_element q.payloads)))) [
      | inl o ↦
          rw ((==_iff (length q.payloads) capacity).1 e, o)
            (newcomer_out p q.payloads (omega arith) o)
      | inr o ↦
          rw ((==_iff (length q.payloads) capacity).1 e, o)
            (oldest_out p q.payloads (omega arith) o)
    ]

store_room :
    (capacity : ℕ) (p : ScheduledPayload) (q : TransportQueue)
    → length q.payloads ≢ capacity
    → ((store capacity p q).payloads ≡ q.payloads ++ (p ∷ []))
      × ((store capacity p q).stats.dropped ≡ q.stats.dropped)
unfolding store
store_room capacity p q h = ground arith

-- `enqueue` accepts a payload exactly when the capacity is positive, the transport is one of the
-- four and the size lies between 1 and 512; a payload that it refuses changes nothing.
pub enqueue_ok :
    (s : Scheduler) (p : ScheduledPayload)
    → (((enqueue s p).0 ≡ ok)
        ↔ ((0 < s.capacity) × (transport_value p.transport < 4) × (0 < p.size) × (p.size ≤ 512)))
      × ((enqueue s p).0 ≢ ok → (enqueue s p).1 ≡ s)
unfolding enqueue
enqueue_ok s p = ((λ e. ground arith, λ h. ground arith), λ h. ground arith)

enqueue_queues :
    (s : Scheduler) (p : ScheduledPayload) {i : ℕ}
    → transport_index p.transport ≡ some i
    → (enqueue s p).0 ≡ ok
    → (enqueue s p).1.queues ≡ update s.queues i (store s.capacity p (s.queues i))
unfolding enqueue
enqueue_queues s p {i} e accepted = ground arith

-- What an accepted payload does to the queue of its transport: a queue with room takes it at the
-- end and drops nothing; a full queue gives up one payload, which may be the new one, and none
-- that stays is older than the one given up. The other queues stay as they were.
pub enqueue_accepts :
    (s : Scheduler) (p : ScheduledPayload) {i : ℕ}
    → transport_index p.transport ≡ some i
    → (enqueue s p).0 ≡ ok
    → let q = s.queues i in
      let s' = (enqueue s p).1 in
      (((length q.payloads ≡ s.capacity) × Evicts p q.payloads (s'.queues i).payloads)
        ⊎ ((length q.payloads ≢ s.capacity)
            × ((s'.queues i).payloads ≡ q.payloads ++ (p ∷ []))
            × ((s'.queues i).stats.dropped ≡ q.stats.dropped)))
      × ((j : ℕ) → i ≢ j → s'.queues j ≡ s.queues j)
enqueue_accepts s p {i} e accepted =
    let stored = store s.capacity p (s.queues i) in
    rw (enqueue_queues s p e accepted, update_self s.queues i stored)
      (contents, λ j ne. update_ne s.queues i j stored ne)
  where
    contents :
        ((length (s.queues i).payloads ≡ s.capacity)
          × Evicts p (s.queues i).payloads (store s.capacity p (s.queues i)).payloads)
        ⊎ ((length (s.queues i).payloads ≢ s.capacity)
            × ((store s.capacity p (s.queues i)).payloads ≡ (s.queues i).payloads ++ (p ∷ []))
            × ((store s.capacity p (s.queues i)).stats.dropped ≡ (s.queues i).stats.dropped))
    contents = elim (ℕ_discrete (length (s.queues i).payloads) s.capacity) [
      | yes full ↦
          inl (full, store_full s.capacity p (s.queues i) ((enqueue_ok s p).0.0 accepted).0 full)
      | no room ↦ inr (
        room,
        (store_room s.capacity p (s.queues i) room).0,
        (store_room s.capacity p (s.queues i) room).1,
      )
    ]
