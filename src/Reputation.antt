-- ===== src/Reputation.antt =====
-- server/backend/src/cq_server/reputation.py: the append-only reputation log, one hash chain for
-- each Enterprise. The children are the chain's proofs, its verifier and the daily roots.
pub mod Chain
pub mod Verifier
pub mod DailyRoot
mod Tests
use th_layer_agent.Common.{
  ℕ, String, str_append, Bool, Option, none, some, List, ◌==◌, if◌then◌else◌, is_some,
}
use th_layer_agent.Common.Exec.{
  Result, ok, err, Exec, pure, raise_if, some_or, get, put, ◌>>=◌, ◌>>◌,
}
use th_layer_agent.Sql.{fetchone, update, insert}
use th_layer_agent.Crypto.{Ed25519, sign_raw}
use th_layer_agent.Merkle.{Bytes, Hashing}

-- One row of `reputation_events`.
pub record Event : Type 0 where
  pub event_id : String
  pub event_type : String
  pub enterprise_id : String
  pub l2_id : String
  pub ts : String
  pub prev_event_hash : String
  pub payload_canonical : String
  pub payload_hash : String
  pub signature_b64u : Option String
  pub signing_key_id : Option String
  pub created_at : String

-- One row of `reputation_chain_meta`.
pub record ChainMeta : Type 0 where
  pub enterprise_id : String
  pub last_event_id : String
  pub last_event_hash : String
  pub updated_at : String
  pub last_root_published_day : Option String

-- One row of `reputation_roots`.
pub record Root : Type 0 where
  pub enterprise_id : String
  pub root_date : String
  pub event_count : ℕ
  pub merkle_root_hash : String
  pub first_event_id : Option String
  pub last_event_id : Option String
  pub signature_b64u : Option String
  pub signing_key_id : Option String
  pub computed_at : String
  pub published_to_directory_at : Option String

pub record Db : Type 0 where
  pub events : List Event
  pub meta : List ChainMeta
  pub roots : List Root

-- The dictionary that is canonicalised, hashed and signed.
pub record Payload (Body : Type 0) : Type 0 where
  pub event_id : String
  pub event_type : String
  pub enterprise_id : String
  pub l2_id : String
  pub ts : String
  pub prev_event_hash : String
  pub body : Body

-- The dictionary that a daily root signs.
pub record RootPayload : Type 0 where
  pub enterprise_id : String
  pub root_date : String
  pub event_count : ℕ
  pub merkle_root_hash : String
  pub first_event_id : Option String
  pub last_event_id : Option String

-- What the process takes from outside: `hashlib`, `json.dumps` on the two dictionaries (`none` is
-- its TypeError), the key on disk with its public half, Ed25519, and the environment variables.
pub record Host (Body : Type 0) : Type 0 where
  pub hashing : Hashing
  pub dumps : Payload Body → Option String
  pub dumps_root : RootPayload → String
  pub private_key : Option String
  pub public_key_b64u : Option String
  pub urlsafe_b64encode : Bytes → String
  pub sign : String → Bytes → Bytes
  pub ed : Ed25519
  pub cq_enterprise : Option String
  pub cq_group : Option String

-- The statements of `record_event` that the database may refuse.
pub data Statement : Type 0 where
  savepoint read_meta insert_event upsert_meta release rollback : Statement

pub record EventRequest (Body : Type 0) : Type 0 where
  pub event_type : String
  pub body : Body
  pub enterprise_id : Option String
  pub l2_id : Option String
  pub ts : Option String

-- The values that the call draws: a random event id, and the clock at each of its three readings.
pub record Drawn : Type 0 where
  pub event_id : String
  pub now_ts : String
  pub now_created : String
  pub now_meta : String

-- `"sha256:" + "0" * 64`
abbrev pub genesis_prev_hash : String
genesis_prev_hash = "sha256:0000000000000000000000000000000000000000000000000000000000000000"

-- `os.environ.get(name, default)`
abbrev pub env_or : Option String → String → String
env_or none default = default
env_or (some v) default = v

-- `value or default`: an empty text counts as absent
abbrev pub or_default : Option String → String → String
or_default none default = default
or_default (some v) default = if v == "" then default else v

module _ {Body : Type 0} (host : Host Body) where
  unfoldable pub compute_payload_hash : Bytes → String
  compute_payload_hash canonical =
      str_append "sha256:" (host.hashing.to_hex (host.hashing.sha256 canonical))

  unfoldable pub sign_canonical_bytes : Bytes → Option String × Option String
  unfolding sign_raw
  sign_canonical_bytes canonical = elim host.private_key [
    | none ↦ (none, none)
    | some key ↦ elim host.public_key_b64u [
      | none ↦ (none, none)
      | some public_key ↦
          (some (sign_raw host.urlsafe_b64encode host.sign key canonical), some public_key)
    ]
  ]

  unfoldable pub self_enterprise_id : String
  self_enterprise_id = env_or host.cq_enterprise "default-enterprise"

  unfoldable pub self_l2_id : String
  self_l2_id =
      str_append (env_or host.cq_enterprise "default-enterprise")
        (str_append "/" (env_or host.cq_group "default-group"))

-- The hash of the Enterprise's last event: the second part of what the code returns, the first is
-- not used.
unfoldable pub read_chain_meta : String → Db → String
read_chain_meta ent db = elim (fetchone (λ m. m.enterprise_id == ent) db.meta) [
  | none ↦ genesis_prev_hash
  | some m ↦ m.last_event_hash
]

-- INSERT ... ON CONFLICT(enterprise_id) DO UPDATE
unfoldable pub upsert_chain_meta : String → String → String → String → Db → Db
upsert_chain_meta ent event_id event_hash now db =
    elim (fetchone (λ m. m.enterprise_id == ent) db.meta) [
      | none ↦ record db {
        meta =
            insert
              (record {
                enterprise_id = ent;
                last_event_id = event_id;
                last_event_hash = event_hash;
                updated_at = now;
                last_root_published_day = none;
              })
              db.meta;
      }
      | some _ ↦ record db {
        meta =
            update (λ m. m.enterprise_id == ent)
              (λ m. record m {
                last_event_id = event_id;
                last_event_hash = event_hash;
                updated_at = now;
              })
              db.meta;
      }
    ]

-- INSERT INTO reputation_events: the event id is the table's primary key.
unfoldable pub insert_event_row : Event → Exec (Unit {0}) Db (Unit {0})
insert_event_row e = do
  db ← get
  raise_if (is_some (fetchone (λ r. r.event_id == e.event_id) db.events)) tt
  put (record db { events = insert e db.events })

module _ {Body : Type 0} (host : Host Body) where
  unfoldable pub event_enterprise : EventRequest Body → String
  unfolding self_enterprise_id
  event_enterprise req = or_default req.enterprise_id (self_enterprise_id host)

  unfoldable pub event_payload : EventRequest Body → Drawn → String → Payload Body
  unfolding event_enterprise self_l2_id
  event_payload req drawn prev = record {
    event_id = drawn.event_id;
    event_type = req.event_type;
    enterprise_id = event_enterprise req;
    l2_id = or_default req.l2_id (self_l2_id host);
    ts = or_default req.ts drawn.now_ts;
    prev_event_hash = prev;
    body = req.body;
  }

  -- the row that the INSERT writes for a payload and its canonical text
  unfoldable pub event_row : Payload Body → String → String → Event
  unfolding compute_payload_hash sign_canonical_bytes
  event_row payload canonical now_created =
      let bytes = host.hashing.encode canonical in
      record {
        event_id = payload.event_id;
        event_type = payload.event_type;
        enterprise_id = payload.enterprise_id;
        l2_id = payload.l2_id;
        ts = payload.ts;
        prev_event_hash = payload.prev_event_hash;
        payload_canonical = canonical;
        payload_hash = compute_payload_hash host bytes;
        signature_b64u = (sign_canonical_bytes host bytes).0;
        signing_key_id = (sign_canonical_bytes host bytes).1;
        created_at = now_created;
      }

module _ {Body : Type 0} (host : Host Body) (fails : Statement → Bool) where
  -- The body of the `try`, from the read of the chain's head to the release of the savepoint.
  unfoldable pub write_event : EventRequest Body → Drawn → Exec (Unit {0}) Db String
  unfolding insert_event_row
  write_event req drawn = do
    raise_if (fails read_meta) tt
    db ← get
    let payload = event_payload host req drawn (read_chain_meta (event_enterprise host req) db)
    canonical ← some_or (host.dumps payload) tt
    let row = event_row host payload canonical drawn.now_created
    raise_if (fails insert_event) tt
    insert_event_row row
    raise_if (fails upsert_meta) tt
    db' ← get
    put (upsert_chain_meta row.enterprise_id drawn.event_id row.payload_hash drawn.now_meta db')
    raise_if (fails release) tt
    pure drawn.event_id

  -- The `except`: ROLLBACK TO the savepoint, unless that fails too; the error is swallowed.
  unfoldable pub settle : Db → Result (Unit {0}) String × Db → Option String × Db
  settle saved run = elim run.0 [
    | ok event_id ↦ (some event_id, run.1)
    | err _ ↦ (none, if fails rollback then run.1 else saved)
  ]

  unfoldable pub record_event : EventRequest Body → Drawn → Db → Option String × Db
  unfolding write_event settle
  record_event req drawn db =
      if fails savepoint then (none, db) else settle db (write_event req drawn db)
