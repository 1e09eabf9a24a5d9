-- ===== src/Mail/Suppression.antt =====
-- suppression.py and sns_writer.py: addresses that must not be written to any more, recorded from the
-- provider's bounces and complaints.
use th_layer_agent.Common.{
  ℕ, ◌+◌, suc, String, str_append, Bool, true, false, Option, none, some, List, [], ◌∷◌, ◌==◌,
  is_some, if◌then◌else◌, nat_eq,
}
use th_layer_agent.Sql.{fetchone, insert}
use th_layer_agent.Sql.Keys.{by_key}
use th_layer_agent.Reputation.{or_default}

-- One row of `transactional_suppression`; the address is its primary key.
pub record SuppressionEntry : Type 0 where
  pub address : String
  pub reason : String
  pub suppressed_at : String
  pub source_event_id : Option String

-- A bounce or a complaint, as the code reads it out of the envelope's JSON.
pub data Notification : Type 0 where
  bounce : String → String → List (Option String) → Notification
  complaint : String → List (Option String) → Notification
  other_notification : Notification

module _ (lower : String → String) where
  unfoldable pub check_suppression : String → List SuppressionEntry → Option SuppressionEntry
  check_suppression address rows = fetchone (by_key (λ r. r.address) (lower address)) rows

  abbrev pub new_entry : String → String → Option String → Option String → String → SuppressionEntry
  new_entry address reason source_event_id suppressed_at now = record {
    address = lower address;
    reason = reason;
    suppressed_at = or_default suppressed_at now;
    source_event_id = source_event_id;
  }

  -- INSERT OR IGNORE: `true` is an insertion. `now` is the clock where no time is given.
  unfoldable pub record_suppression :
      String
      → String
      → Option String
      → Option String
      → String
      → List SuppressionEntry
      → Bool × List SuppressionEntry
  record_suppression address reason source_event_id suppressed_at now rows =
      if is_some (fetchone (by_key (λ r. r.address) (lower address)) rows)
      then (false, rows)
      else (true, insert (new_entry address reason source_event_id suppressed_at now) rows)

  -- the loop over the recipients; `none` is a recipient without an address
  unfoldable pub record_all :
      String
      → Option String
      → String
      → List (Option String)
      → List SuppressionEntry
      → ℕ × List SuppressionEntry
  unfolding record_suppression
  record_all reason event_id now [] rows = (0, rows)
  record_all reason event_id now (none ∷ recipients) rows =
      record_all reason event_id now recipients rows
  record_all reason event_id now (some address ∷ recipients) rows =
      let skipped = record_all reason event_id now recipients rows in
      let first = record_suppression address reason event_id none now rows in
      let rest = record_all reason event_id now recipients first.1 in
      if address == "" then skipped else ((if first.0 then suc rest.0 else rest.0), rest.1)

module _ (lower day_of : String → String) where
  -- the text of the reason, from the day of the timestamp or `unknown`
  unfoldable pub reason_for : String → String → String
  reason_for kind timestamp =
      let day = day_of timestamp in str_append kind (if day == "" then "unknown" else day)

  -- the handler's part after the JSON is read
  unfoldable pub handle_notification :
      Notification → Option String → String → List SuppressionEntry → ℕ × List SuppressionEntry
  unfolding record_all reason_for
  handle_notification (bounce kind timestamp recipients) event_id now rows =
      if kind == "Permanent"
      then record_all lower (reason_for "hard_bounce_" timestamp) event_id now recipients rows
      else (0, rows)
  handle_notification (complaint timestamp recipients) event_id now rows =
      record_all lower (reason_for "complaint_" timestamp) event_id now recipients rows
  handle_notification other_notification event_id now rows = (0, rows)

  -- `loads` is the reading of the JSON, `none` its error; `day_of` is the slice `[:10]`.
  unfoldable pub handle_sns_message :
      (String → Option Notification)
      → String
      → Option String
      → String
      → List SuppressionEntry
      → ℕ × List SuppressionEntry
  unfolding handle_notification
  handle_sns_message loads message_body event_id now rows = elim (loads message_body) [
    | none ↦ (0, rows)
    | some notification ↦ handle_notification notification event_id now rows
  ]

  -- The records of one event: how many addresses were recorded, and how many messages recorded none.
  unfoldable pub handle_lambda_event :
      (String → Option Notification)
      → List (String × Option String)
      → String
      → List SuppressionEntry
      → ℕ × ℕ × List SuppressionEntry
  unfolding handle_sns_message
  handle_lambda_event loads [] now rows = (0, 0, rows)
  handle_lambda_event loads ((message, message_id) ∷ records) now rows =
      let one = handle_sns_message loads message message_id now rows in
      let rest = handle_lambda_event loads records now one.1 in
      (one.0 + rest.0, (if nat_eq one.0 0 then suc rest.1 else rest.1), rest.2)
