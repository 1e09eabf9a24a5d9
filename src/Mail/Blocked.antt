-- ===== src/Mail/Blocked.antt =====
-- The list of suppressed addresses: an address once recorded stays, in any casing, with its first reason.
use th_layer_agent.Common.{
  String, true, false, ◌≡◌, ap, ◌∙◌, subst, Option, none, some, List, [], ◌∷◌, ◌==◌, In, inl, inr,
  some_inj, is_some, Bool-cases, Option-cases, arith, str_eq_refl,
}
use th_layer_agent.Sql.{fetchone}
use th_layer_agent.Sql.Keys.{by_key}
use th_layer_agent.Sql.Rows.{fetchone-append_some, fetchone-append_none}
use th_layer_agent.Mail.Suppression.{
  SuppressionEntry, Notification, bounce, complaint, other_notification, check_suppression,
  record_suppression, record_all, reason_for, handle_sns_message, handle_lambda_event, new_entry,
  handle_notification,
}

module _ (lower : String → String) where
  -- recording leaves what is found
  pub check-record_stays :
      (a b reason : String) (event at : Option String) (now : String) (rows : List SuppressionEntry)
      {r : SuppressionEntry}
      → check_suppression lower a rows ≡ some r
      → check_suppression lower a (record_suppression lower b reason event at now rows).1 ≡ some r
  unfolding check_suppression record_suppression
  check-record_stays a b reason event at now rows h =
      elim (Bool-cases (is_some (fetchone (by_key (λ x. x.address) (lower b)) rows))) [
        | inl t ↦ ground arith
        | inr f ↦ rw f (
            fetchone-append_some (by_key (λ x. x.address) (lower a)) rows
              (new_entry lower b reason event at now ∷ []) h)
      ]

  -- an address is found once it is recorded
  pub check-record :
      (a reason : String) (event at : Option String) (now : String) (rows : List SuppressionEntry)
      → is_some (check_suppression lower a (record_suppression lower a reason event at now rows).1)
        ≡ true
  unfolding check_suppression record_suppression fetchone
  check-record a reason event at now rows =
      elim (Option-cases (fetchone (by_key (λ x. x.address) (lower a)) rows)) [
        | inr (r, e) ↦ ground arith
        | inl n ↦
            let added =
              fetchone-append_none (by_key (λ x. x.address) (lower a)) rows
                (new_entry lower a reason event at now ∷ []) n in
            ground (arith, str_eq_refl (lower a))
      ]

  record_all-stays :
      (a reason : String) (event : Option String) (now : String) (recipients : List (Option String))
      (rows : List SuppressionEntry) {r : SuppressionEntry}
      → check_suppression lower a rows ≡ some r
      → check_suppression lower a (record_all lower reason event now recipients rows).1 ≡ some r
  unfolding record_all
  record_all-stays a reason event now [] rows h = h
  record_all-stays a reason event now (none ∷ recipients) rows h =
      record_all-stays a reason event now recipients rows h
  record_all-stays a reason event now (some b ∷ recipients) rows h = elim (Bool-cases (b == "")) [
    | inl t ↦ rw t (record_all-stays a reason event now recipients rows h)
    | inr f ↦ rw f (
        record_all-stays a reason event now recipients
          (record_suppression lower b reason event none now rows).1
          (check-record_stays a b reason event none now rows h))
  ]

  record_all-records :
      (a reason : String) (event : Option String) (now : String) (recipients : List (Option String))
      (rows : List SuppressionEntry)
      → a == "" ≡ false
      → In (some a) recipients
      → is_some (check_suppression lower a (record_all lower reason event now recipients rows).1)
        ≡ true
  unfolding record_all
  record_all-records a reason event now [] rows full i = absurd i
  record_all-records a reason event now (none ∷ recipients) rows full (inl e) = absurd cc
  record_all-records a reason event now (none ∷ recipients) rows full (inr i) =
      record_all-records a reason event now recipients rows full i
  record_all-records a reason event now (some b ∷ recipients) rows full (inl e) =
      let same = some_inj e in
      let first = record_suppression lower b reason event none now rows in
      let found =
        subst (λ x. is_some (check_suppression lower x first.1) ≡ true) same
          (check-record b reason event none now rows) in
      elim (Option-cases (check_suppression lower a first.1)) [
        | inl n ↦ absurd (ground arith)
        | inr (r, here) ↦
            let stays = record_all-stays a reason event now recipients first.1 here in
            let differs : b == "" ≡ false = rw same full in rw differs (ap is_some stays)
      ]
  record_all-records a reason event now (some b ∷ recipients) rows full (inr i) =
      elim (Bool-cases (b == "")) [
        | inl t ↦ rw t (record_all-records a reason event now recipients rows full i)
        | inr f ↦ rw f (
            record_all-records a reason event now recipients
              (record_suppression lower b reason event none now rows).1 full i)
      ]

module _ (lower day_of : String → String) where
  notification-stays :
      (a : String) (n : Notification) (event : Option String) (now : String)
      (rows : List SuppressionEntry) {r : SuppressionEntry}
      → check_suppression lower a rows ≡ some r
      → check_suppression lower a (handle_notification lower day_of n event now rows).1 ≡ some r
  unfolding handle_notification
  notification-stays a other_notification event now rows h = h
  notification-stays a (complaint timestamp recipients) event now rows h =
      record_all-stays lower a (reason_for lower day_of "complaint_" timestamp) event now recipients
        rows h
  notification-stays a (bounce kind timestamp recipients) event now rows h =
      elim (Bool-cases (kind == "Permanent")) [
        | inr f ↦ rw f h
        | inl t ↦ rw t (
            record_all-stays lower a (reason_for lower day_of "hard_bounce_" timestamp) event now
              recipients rows h)
      ]

  handle_sns-read :
      (loads : String → Option Notification) (message : String) (n : Notification)
      (event : Option String) (now : String) (rows : List SuppressionEntry)
      → loads message ≡ some n
      → handle_sns_message lower day_of loads message event now rows
        ≡ handle_notification lower day_of n event now rows
  unfolding handle_sns_message
  handle_sns-read loads message n event now rows e = ground arith

  handle_sns-stays :
      (loads : String → Option Notification) (a message : String) (event : Option String)
      (now : String) (rows : List SuppressionEntry) {r : SuppressionEntry}
      → check_suppression lower a rows ≡ some r
      → check_suppression lower a (handle_sns_message lower day_of loads message event now rows).1
        ≡ some r
  unfolding handle_sns_message
  handle_sns-stays loads a message event now rows h = elim (Option-cases (loads message)) [
    | inl n ↦ ground arith
    | inr (n, e) ↦
        ap (λ x. check_suppression lower a x.1) (handle_sns-read loads message n event now rows e)
        ∙ notification-stays a n event now rows h
  ]

  handle_lambda-stays :
      (loads : String → Option Notification) (a : String) (records : List (String × Option String))
      (now : String) (rows : List SuppressionEntry) {r : SuppressionEntry}
      → check_suppression lower a rows ≡ some r
      → check_suppression lower a (handle_lambda_event lower day_of loads records now rows).2
        ≡ some r
  unfolding handle_lambda_event
  handle_lambda-stays loads a [] now rows h = h
  handle_lambda-stays loads a ((message, id) ∷ records) now rows h =
      handle_lambda-stays loads a records now
        (handle_sns_message lower day_of loads message id now rows).1
        (handle_sns-stays loads a message id now rows h)

  -- A notification that a mail to an address bounced for good, or that its owner complained.
  unfoldable pub Rejects : String → Notification → Type 0
  Rejects a (bounce kind timestamp recipients) = (kind ≡ "Permanent") × In (some a) recipients
  Rejects a (complaint timestamp recipients) = In (some a) recipients
  Rejects a other_notification = ⊥

  notification-records :
      (a : String) (n : Notification) (event : Option String) (now : String)
      (rows : List SuppressionEntry)
      → a == "" ≡ false
      → Rejects a n
      → is_some (check_suppression lower a (handle_notification lower day_of n event now rows).1)
        ≡ true
  unfolding Rejects handle_notification
  notification-records a other_notification event now rows full rejects = absurd rejects
  notification-records a (complaint timestamp recipients) event now rows full i =
      record_all-records lower a (reason_for lower day_of "complaint_" timestamp) event now
        recipients rows full i
  notification-records a (bounce kind timestamp recipients) event now rows full rejects =
      rw (rejects.0) (
        record_all-records lower a (reason_for lower day_of "hard_bounce_" timestamp) event now
          recipients rows full rejects.1)

  -- Once a permanent bounce or a complaint for a nonempty address is handled, the address is found
  -- suppressed, whatever notifications are handled after it.
  pub rejected-suppressed :
      (loads : String → Option Notification) (a message : String) (notification : Notification)
      (event : Option String) (now : String) (rows : List SuppressionEntry)
      (later : List (String × Option String)) (moment : String)
      → a == "" ≡ false
      → loads message ≡ some notification
      → Rejects a notification
      → is_some (
          check_suppression lower a
            (handle_lambda_event lower day_of loads later moment
              (handle_sns_message lower day_of loads message event now rows).1).2)
        ≡ true
  rejected-suppressed loads a message notification event now rows later moment full at_message
        rejects =
      let first = handle_sns_message lower day_of loads message event now rows in
      let found = notification-records a notification event now rows full rejects in
      elim (Option-cases (check_suppression lower a first.1)) [
        | inl n ↦
            absurd
              (ground (arith, handle_sns-read loads message notification event now rows at_message))
        | inr (r, e) ↦ ap is_some (handle_lambda-stays loads a later moment first.1 e)
      ]
