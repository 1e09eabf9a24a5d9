-- ===== src/Reputation/Verifier/Linkage.antt =====
-- What a report of `verify_chain` says of the events.
use th_layer_agent.Common.{
  ℕ, suc, ◌+◌, String, true, false, none, some, List, [], ◌∷◌, ◌++◌, ◌==◌, eq_iff, ◌≡◌, ◌≢◌, ◌↔◌,
  refl, ap, inl, inr, arith, length, Bool-cases, Option-cases, str_ne, subst, str_eq→eq,
}
use th_layer_agent.Reputation.{Event}
use th_layer_agent.Reputation.Chain.{Linked}
use th_layer_agent.Reputation.Verifier.{first_break, verify_chain}

-- Behind the first event, each names the hash of the one before it.
abbrev pub LinkedBehind : List Event → Type 0
LinkedBehind [] = Unit
LinkedBehind (e ∷ events) = Linked e.payload_hash events

first_break-Linked :
    (i : ℕ) (previous : Event) (events : List Event)
    → (first_break i previous events ≡ none) ↔ Linked previous.payload_hash events
unfolding first_break
first_break-Linked i previous [] = (λ _. tt, λ _. refl)
first_break-Linked i previous (e ∷ events) = (
  λ h. ground (
    arith,
    eq_iff e.prev_event_hash previous.payload_hash,
    (first_break-Linked (suc i) e events).0,
  ),
  λ h. ground (
    arith,
    eq_iff e.prev_event_hash previous.payload_hash,
    (first_break-Linked (suc i) e events).1 h.1,
  ),
)

-- `verify_chain` reports ok exactly when every event but the first names the payload hash of the
-- event before it.
pub verify_chain-ok :
    (events : List Event) → ((verify_chain events).ok ≡ true) ↔ LinkedBehind events
unfolding verify_chain
verify_chain-ok [] = (λ _. tt, λ _. refl)
verify_chain-ok (e ∷ events) = elim (Option-cases (first_break 1 e events)) [
  | inl none_broken ↦ (λ _. (first_break-Linked 1 e events).0 none_broken, λ _. ground arith)
  | inr (b, broken) ↦ (λ h. ground arith, λ l. ground (arith, (first_break-Linked 1 e events).1 l))
]

-- The place of the break that a report names.
pub record BreaksAt (events : List Event) (i : ℕ) (event_id : String) : Type 0 where
  pub before : List Event
  pub previous : Event
  pub broken : Event
  pub after : List Event
  pub split : events ≡ before ++ previous ∷ broken ∷ after
  pub index : i ≡ length before + 1
  pub id : event_id ≡ broken.event_id
  pub mismatch : broken.prev_event_hash ≢ previous.payload_hash
  pub intact : LinkedBehind (before ++ previous ∷ [])

link_front :
    (previous e : Event) (events before : List Event) (q : Event) (after : List Event)
    → e ∷ events ≡ before ++ q ∷ after
    → e.prev_event_hash ≡ previous.payload_hash
    → LinkedBehind (before ++ q ∷ [])
    → Linked previous.payload_hash (before ++ q ∷ [])
link_front previous e events [] q after split link behind = (ground (arith, split), tt)
link_front previous e events (x ∷ before) q after split link behind =
    (ground (arith, split), behind)

first_break-BreaksAt :
    (i : ℕ) (previous : Event) (events : List Event) {j : ℕ} {event_id : String}
    → first_break i previous events ≡ some (j, event_id)
    → (k : ℕ) × (j ≡ i + k) × BreaksAt (previous ∷ events) (suc k) event_id
unfolding first_break
first_break-BreaksAt i previous [] h = ground arith
first_break-BreaksAt i previous (e ∷ events) {j} {event_id} h =
    elim (Bool-cases (e.prev_event_hash == previous.payload_hash)) [
      | inr differs ↦ (
        0,
        ground arith,
        record {
          before = [];
          previous = previous;
          broken = e;
          after = events;
          split = refl;
          index = omega arith;
          id = ground arith;
          mismatch = str_ne _ _ differs;
          intact = tt;
        },
      )
      | inl same ↦
          let (k, place, b) =
            first_break-BreaksAt (suc i) e events {j = j} {event_id = event_id} (ground arith) in
          (
            suc k,
            omega arith,
            record {
              before = previous ∷ b.before;
              previous = b.previous;
              broken = b.broken;
              after = b.after;
              split = ap (λ l. previous ∷ l) b.split;
              index = omega (arith, b.index);
              id = b.id;
              mismatch = b.mismatch;
              intact =
                  link_front previous e events b.before b.previous (b.broken ∷ b.after) b.split
                    (str_eq→eq _ _ same) b.intact;
            },
          )
    ]

-- A report that is not ok names an index and an event id: the event at that index is the first that
-- does not name its predecessor's payload hash, and the id is its own.
pub verify_chain-broken :
    (events : List Event)
    → (verify_chain events).ok ≡ false
    → (i : ℕ) × (event_id : String) × ((verify_chain events).broken_at_index ≡ some i)
      × ((verify_chain events).broken_event_id ≡ some event_id)
      × BreaksAt events i event_id
unfolding verify_chain
verify_chain-broken [] h = ground arith
verify_chain-broken (e ∷ events) h = elim (Option-cases (first_break 1 e events)) [
  | inl none_broken ↦ ground arith
  | inr ((j, event_id), broken) ↦
      let (k, place, b) = first_break-BreaksAt 1 e events broken in
      (
        j,
        event_id,
        ground arith,
        ground arith,
        subst (λ n. BreaksAt (e ∷ events) n event_id) (omega arith) b,
      )
]
