-- ===== src/Reputation/DailyRoot.antt =====
-- server/backend/src/cq_server/daily_root.py: one Merkle root for each Enterprise and day, computed
-- once and read back afterwards.
pub mod Once
pub mod Verifies
use Prim.Native.String.{compare}
use text.Mathlib.Text.{is_le, is_lt}
use th_layer_agent.Common.{
  String, str_append, Bool, true, ◌&&◌, ◌||◌, Option, none, some, List, [], ◌∷◌, ◌==◌, length,
  last_or, map,
}
use th_layer_agent.Sql.{select, fetchone, update, insert, order_by}
use th_layer_agent.Merkle.{merkle_root}
use th_layer_agent.Reputation.{Event, ChainMeta, Root, RootPayload, Db, Host, sign_canonical_bytes}

-- SQLite compares TEXT columns byte by byte, which for UTF-8 is the order of the code points.
abbrev pub text_le : String → String → Bool
text_le a b = is_le (compare a b)

abbrev pub text_lt : String → String → Bool
text_lt a b = is_lt (compare a b)

unfoldable pub day_window : String → String × String
day_window day = (str_append day "T00:00:00Z", str_append day "T23:59:59Z")

-- ORDER BY ts ASC, event_id ASC
abbrev pub by_ts_then_id : Event → Event → Bool
by_ts_then_id a b = text_lt a.ts b.ts || (a.ts == b.ts) && text_le a.event_id b.event_id

unfoldable pub in_day : String → String → Event → Bool
unfolding day_window
in_day ent day e =
    (e.enterprise_id == ent) && text_le (day_window day).0 e.ts && text_le e.ts (day_window day).1

unfoldable pub read_day_events : String → String → Db → List Event
unfolding in_day
read_day_events ent day db = order_by by_ts_then_id (select (in_day ent day) db.events)

abbrev pub is_root_of : String → String → Root → Bool
is_root_of ent day r = (r.enterprise_id == ent) && (r.root_date == day)

unfoldable pub existing_root : String → String → Db → Option Root
existing_root ent day db = fetchone (is_root_of ent day) db.roots

abbrev pub first_id : List Event → Option String
first_id [] = none
first_id (e ∷ events) = some e.event_id

abbrev pub last_id : List Event → Option String
last_id [] = none
last_id (e ∷ events) = some (last_or e events).event_id

-- `last_root_published_day IS NULL OR last_root_published_day < :day`
abbrev pub published_before : String → Option String → Bool
published_before day none = true
published_before day (some last) = text_lt last day

unfoldable pub bump_published_day : String → String → String → List ChainMeta → List ChainMeta
bump_published_day ent day now =
    update (λ m. (m.enterprise_id == ent) && published_before day m.last_root_published_day)
      (λ m. record m { last_root_published_day = some day; updated_at = now })

module _ {Body : Type 0} (host : Host Body) where
  -- The row that a day without one gets: its events' root, signed where the process has a key.
  unfoldable pub new_root : String → String → String → List Event → String → Root
  unfolding sign_canonical_bytes
  new_root ent day now events root_hash =
      let payload : RootPayload = record {
        enterprise_id = ent;
        root_date = day;
        event_count = length events;
        merkle_root_hash = root_hash;
        first_event_id = first_id events;
        last_event_id = last_id events;
      } in
      let signed = sign_canonical_bytes host (host.hashing.encode (host.dumps_root payload)) in
      record {
        enterprise_id = ent;
        root_date = day;
        event_count = length events;
        merkle_root_hash = root_hash;
        first_event_id = first_id events;
        last_event_id = last_id events;
        signature_b64u = signed.0;
        signing_key_id = signed.1;
        computed_at = now;
        published_to_directory_at = none;
      }

  -- `none` is the ValueError of `merkle_root`: nothing has been written then.
  unfoldable pub compute_root_for_day : String → String → String → Db → Option Root × Db
  unfolding existing_root read_day_events new_root bump_published_day
  compute_root_for_day ent day now db = elim (existing_root ent day db) [
    | some existing ↦ (some existing, db)
    | none ↦
        let events = read_day_events ent day db in
        elim (merkle_root host.hashing (map (λ e. e.payload_hash) events)) [
          | none ↦ (none, db)
          | some root_hash ↦
              let root = new_root ent day now events root_hash in
              (
                some root,
                record db {
                  roots = insert root db.roots;
                  meta = bump_published_day ent day now db.meta;
                },
              )
        ]
  ]
