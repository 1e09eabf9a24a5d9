-- ===== src/Reputation/Chain.antt =====
-- The hash chain that `record_event` extends: each event of an Enterprise names the hash of the one
-- before it, and the chain's head is the hash of the last.
mod Append
pub use Append.{Appended, IsOf, record_event_outcome}
use th_layer_agent.Common.{
  String, Bool, false, List, [], ◌∷◌, ◌++◌, ◌==◌, ◌≡◌, refl, sym, ap, ◌∙◌, inl, inr, All,
  All-append, if◌then◌else◌, Bool-cases, str_eq→eq,
}
use th_layer_agent.Sql.{select}
use th_layer_agent.Sql.Rows.{select-snoc}
use th_layer_agent.Reputation.{
  Event, Db, Host, Statement, rollback, EventRequest, Drawn, genesis_prev_hash,
  compute_payload_hash, read_chain_meta, record_event,
}

-- Each event names the hash of its predecessor, the first one `prev`.
abbrev pub Linked : String → List Event → Type 0
Linked prev [] = Unit
Linked prev (e ∷ events) = (e.prev_event_hash ≡ prev) × Linked e.payload_hash events

abbrev pub last_hash : String → List Event → String
last_hash prev [] = prev
last_hash prev (e ∷ events) = last_hash e.payload_hash events

-- The events of one Enterprise, in the order in which they were written.
unfoldable pub chain : String → Db → List Event
chain ent db = select (λ e. e.enterprise_id == ent) db.events

abbrev pub IsHashed : {Body : Type 0} → Host Body → Event → Type 0
IsHashed host e =
    e.payload_hash ≡ compute_payload_hash host (host.hashing.encode e.payload_canonical)

pub record IsChained {Body : Type 0} (host : Host Body) (db : Db) : Type 0 where
  pub linked : (ent : String) → Linked genesis_prev_hash (chain ent db)
  pub head : (ent : String) → read_chain_meta ent db ≡ last_hash genesis_prev_hash (chain ent db)
  pub hashed : All (IsHashed host) db.events

Linked-snoc :
    (prev : String) (events : List Event) (e : Event)
    → Linked prev events
    → e.prev_event_hash ≡ last_hash prev events
    → Linked prev (events ++ e ∷ [])
Linked-snoc prev [] e l h = (h, tt)
Linked-snoc prev (x ∷ events) e l h = (l.0, Linked-snoc x.payload_hash events e l.1 h)

last_hash-snoc :
    (prev : String) (events : List Event) (e : Event)
    → last_hash prev (events ++ e ∷ []) ≡ e.payload_hash
last_hash-snoc prev [] e = refl
last_hash-snoc prev (x ∷ events) e = last_hash-snoc x.payload_hash events e

module _ {Body : Type 0} (host : Host Body) {db db' : Db} {e : Event}
    (a : Appended host db e db') where
  pub chain-Appended :
      (ent : String)
      → chain ent db' ≡ (if e.enterprise_id == ent then chain ent db ++ e ∷ [] else chain ent db)
  unfolding chain
  chain-Appended ent = rw a.events (select-snoc (λ r. r.enterprise_id == ent) db.events e)

  Appended-IsChained : IsChained host db → IsChained host db'
  Appended-IsChained c = record {
    linked = λ ent. linked_at ent;
    head = λ ent. head_at ent;
    hashed = rw a.events (All-append (IsHashed host) db.events (e ∷ []) c.hashed (a.hash, tt));
  }
    where
      linked_at : (ent : String) → Linked genesis_prev_hash (chain ent db')
      linked_at ent = elim (Bool-cases (e.enterprise_id == ent)) [
        | inl own ↦
            rw (chain-Appended ent, own)
              (Linked-snoc genesis_prev_hash (chain ent db) e (c.linked ent)
                (a.prev ∙ ap (λ j. read_chain_meta j db) (str_eq→eq _ _ own) ∙ c.head ent))
        | inr other ↦ rw (chain-Appended ent, other) (c.linked ent)
      ]

      head_at :
          (ent : String) → read_chain_meta ent db' ≡ last_hash genesis_prev_hash (chain ent db')
      head_at ent = elim (Bool-cases (e.enterprise_id == ent)) [
        | inl own ↦
            rw (chain-Appended ent, a.heads ent, own)
              (sym (last_hash-snoc genesis_prev_hash (chain ent db) e))
        | inr other ↦ rw (chain-Appended ent, a.heads ent, other) (c.head ent)
      ]

module _ {Body : Type 0} (host : Host Body) (fails : Statement → Bool) where
  -- Whatever statement of `record_event` fails, the ROLLBACK excepted, every Enterprise's chain stays
  -- linked, with its head at the last event's hash and each hash that of its event's payload.
  pub record_event-IsChained :
      (req : EventRequest Body) (drawn : Drawn) (db : Db)
      → fails rollback ≡ false
      → IsChained host db
      → IsChained host (record_event host fails req drawn db).1
  record_event-IsChained req drawn db rolls c =
      elim (record_event_outcome host fails req drawn db rolls) [
        | inl unchanged ↦ rw unchanged c
        | inr (db', e, done, a, of) ↦ rw done (Appended-IsChained host a c)
      ]
