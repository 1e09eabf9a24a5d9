-- ===== src/Mail/Silenced.antt =====
-- A rejected address and the mails: what the recorder of notifications and the sender do together.
use th_layer_agent.Common.{
  String, false, true, ◌≡◌, subst, sym, Option, some, List, All, All-weaken, In, ◌==◌, is_some,
}
use th_layer_agent.Mail.Allowed.{calls-unsuppressed}
use th_layer_agent.Mail.Blocked.{Rejects, rejected-suppressed}
use th_layer_agent.Mail.Repeat.{serve_all}
use th_layer_agent.Mail.Send.{Setting, Call, Service, Tables, Mail}
use th_layer_agent.Mail.Suppression.{
  SuppressionEntry, Notification, check_suppression, handle_sns_message, handle_lambda_event,
}

module _ {Body : Type 0} (env : Setting Body) (day_of : String → String)
    (loads : String → Option Notification) where
  -- the table some time after a message was handled
  unfoldable pub After : List SuppressionEntry → Tables × Call Body → Type 0
  After rows x =
      (later : List (String × Option String)) × ((moment : String) × ((x.0).suppressions
          ≡ (handle_lambda_event env.lower day_of loads later moment rows).2))

  -- Once a permanent bounce or a complaint for a nonempty address is handled, no request that comes
  -- after it, between whatever other notifications, hands a mail to that address in any casing.
  pub rejected-unwritten :
      (a message : String) (notification : Notification) (event : Option String) (now : String)
      (rows : List SuppressionEntry) (requests : List (Tables × Call Body)) (s : Service) (m : Mail)
      → a == "" ≡ false
      → loads message ≡ some notification
      → Rejects env.lower day_of a notification
      → All (After (handle_sns_message env.lower day_of loads message event now rows).1) requests
      → In m (serve_all env requests s).calls
      → env.lower m.to ≡ env.lower a
      → In m s.calls
  unfolding After
  rejected-unwritten a message notification event now rows requests s m full at_message rejects
        after i same =
      let first = (handle_sns_message env.lower day_of loads message event now rows).1 in
      let listed =
        All-weaken (After first)
          (λ x. is_some (check_suppression env.lower a (x.0).suppressions) ≡ true) requests after
          (λ x at.
            subst (λ t. is_some (check_suppression env.lower a t) ≡ true) (sym (at.1).1)
              (rejected-suppressed env.lower day_of loads a message notification event now rows at.0
                (at.1).0 full at_message rejects)) in
      calls-unsuppressed env a requests s m listed i same
