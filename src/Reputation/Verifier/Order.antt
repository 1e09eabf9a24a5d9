-- ===== src/Reputation/Verifier/Order.antt =====
-- The order in which an auditor reads the log, and the order in which it is written.
use th_layer_agent.Common.{
  String, Bool, true, false, ◌&&◌, ◌||◌, ◌==◌, List, [], ◌∷◌, ◌++◌, ◌≡◌, sym, ap, ◌∙◌, subst, All,
  All-append, All-weaken, inl, inr, Bool-cases, if◌then◌else◌, ◌⊎◌,
}
use th_layer_agent.Sql.{select, order_by}
use th_layer_agent.Sql.Ordered.{Ascending, Ascending-snoc, order_by-Ascending}
use th_layer_agent.Reputation.{
  Event, Db, Host, Statement, rollback, EventRequest, Drawn, record_event, or_default,
  event_enterprise,
}
use th_layer_agent.Reputation.Chain.{chain, IsOf, record_event_outcome, chain-Appended}
use th_layer_agent.Reputation.DailyRoot.{by_ts_then_id, text_lt, text_le}

-- SELECT ... WHERE enterprise_id = ? ORDER BY ts ASC, event_id ASC
unfoldable pub read_events : String → Db → List Event
unfolding chain
read_events ent db = order_by by_ts_then_id (chain ent db)

abbrev key_le : String × String → String × String → Bool
key_le a b = text_lt a.0 b.0 || (a.0 == b.0) && text_le a.1 b.1

abbrev event_key : Event → String × String
event_key e = (e.ts, e.event_id)

module _ {Body : Type 0} (host : Host Body) where
  -- One call of `record_event`: the failures that it meets, and its arguments.
  pub record Call : Type 0 where
    pub fails : Statement → Bool
    pub rolls_back : fails rollback ≡ false
    pub req : EventRequest Body
    pub drawn : Drawn

  unfoldable pub replay : List Call → Db → Db
  replay [] db = db
  replay (c ∷ calls) db = replay calls (record_event host c.fails c.req c.drawn db).1

  abbrev pub empty_db : Db
  empty_db = record { events = []; meta = []; roots = [] }

  abbrev call_key : Call → String × String
  call_key c = (or_default c.req.ts c.drawn.now_ts, c.drawn.event_id)

  -- The event of the one call sorts no later than that of the other.
  abbrev pub comes_first : Call → Call → Bool
  comes_first a b = key_le (call_key a) (call_key b)

  abbrev pub calls_of : String → List Call → List Call
  calls_of ent calls = select (λ c. event_enterprise host c.req == ent) calls

  -- Each event sorts no later than those of the calls.
  abbrev Precedes : List Call → Event → Type 0
  Precedes calls e = All (λ c. key_le (event_key e) (call_key c) ≡ true) calls

  call_key-IsOf : (c : Call) (e : Event) → IsOf host c.req c.drawn e → event_key e ≡ call_key c
  call_key-IsOf c e of =
      ap (λ t. (t, e.event_id)) of.time ∙ ap (λ i. (or_default c.req.ts c.drawn.now_ts, i)) of.id

  -- what a call does to the chain of an Enterprise
  call-chain :
      (ent : String) (c : Call) (db : Db)
      → (chain ent (record_event host c.fails c.req c.drawn db).1 ≡ chain ent db)
        ⊎ ((event_enterprise host c.req == ent) ≡ true
            × (e : Event) × (event_key e ≡ call_key c)
            × (chain ent (record_event host c.fails c.req c.drawn db).1 ≡ chain ent db ++ e ∷ []))
  call-chain ent c db = elim (record_event_outcome host c.fails c.req c.drawn db c.rolls_back) [
    | inl unchanged ↦ inl (ap (λ r. chain ent r.1) unchanged)
    | inr (db', e, done, a, of) ↦
        let step = ap (λ r. chain ent r.1) done ∙ chain-Appended host a ent in
        elim (Bool-cases (e.enterprise_id == ent)) [
          | inr other ↦
              inl (step ∙ ap (λ b. if b then chain ent db ++ e ∷ [] else chain ent db) other)
          | inl own ↦ inr (
            ap (λ i. i == ent) (sym of.enterprise) ∙ own,
            e,
            call_key-IsOf c e of,
            step ∙ ap (λ b. if b then chain ent db ++ e ∷ [] else chain ent db) own,
          )
        ]
  ]

  -- The calls to come and the events are each in order, and the events come before the calls.
  abbrev Ready : List Call → List Event → Type 0
  Ready calls events =
      Ascending comes_first calls × (Ascending by_ts_then_id events × All (Precedes calls) events)

  Ready-skip :
      (c : Call) (calls : List Call) (events : List Event)
      → Ready (c ∷ calls) events
      → Ready calls events
  Ready-skip c calls events (q, (a, p)) =
      (q.1, (a, All-weaken (Precedes (c ∷ calls)) (Precedes calls) events p (λ e h. h.1)))

  All-head :
      (c : Call) (calls : List Call) (events : List Event) (e : Event)
      → event_key e ≡ call_key c
      → All (Precedes (c ∷ calls)) events
      → All (λ x. by_ts_then_id x e ≡ true) events
  All-head c calls events e same p =
      All-weaken (Precedes (c ∷ calls)) (λ x. by_ts_then_id x e ≡ true) events p
        (λ x h. subst (λ k. key_le (event_key x) k ≡ true) (sym same) h.0)

  Ready-snoc :
      (c : Call) (calls : List Call) (events : List Event) (e : Event)
      → event_key e ≡ call_key c
      → Ready (c ∷ calls) events
      → Ready calls (events ++ e ∷ [])
  Ready-snoc c calls events e same (q, (a, p)) = (
    q.1,
    (
      Ascending-snoc by_ts_then_id events e a (All-head c calls events e same p),
      All-append (Precedes calls) events (e ∷ [])
          (All-weaken (Precedes (c ∷ calls)) (Precedes calls) events p (λ x h. h.1))
          (subst (λ k. All (λ d. key_le k (call_key d) ≡ true) calls) (sym same) q.0, tt),
    ),
  )

  replay-Ascending :
      (ent : String) (calls : List Call) (db : Db)
      → Ready (calls_of ent calls) (chain ent db)
      → Ascending by_ts_then_id (chain ent (replay calls db))
  unfolding replay select
  replay-Ascending ent [] db h = h.1.0
  replay-Ascending ent (c ∷ calls) db h =
      let db' = (record_event host c.fails c.req c.drawn db).1 in
      let todo = calls_of ent calls in
      let ready : (b : Bool)
          → (event_enterprise host c.req == ent) ≡ b
          → Ready (if b then c ∷ todo else todo) (chain ent db) =
        λ b e. subst (λ x. Ready (if x then c ∷ todo else todo) (chain ent db)) e h in
      replay-Ascending ent calls db' (elim (call-chain ent c db) [
        | inr (own, e, key, longer) ↦
            rw longer (Ready-snoc c todo (chain ent db) e key (ready true own))
        | inl same ↦ rw same (elim (Bool-cases (event_enterprise host c.req == ent)) [
          | inl own ↦ Ready-skip c todo (chain ent db) (ready true own)
          | inr other ↦ ready false other
        ])
      ])

  -- The events that are read are those that were written, in the same order.
  pub read_events-chain :
      (calls : List Call) (ent : String)
      → Ascending comes_first (calls_of ent calls)
      → read_events ent (replay calls empty_db) ≡ chain ent (replay calls empty_db)
  unfolding read_events chain select
  read_events-chain calls ent q =
      order_by-Ascending by_ts_then_id (chain ent (replay calls empty_db))
        (replay-Ascending ent calls empty_db (q, (tt, tt)))
