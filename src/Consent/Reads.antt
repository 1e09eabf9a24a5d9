-- ===== src/Consent/Reads.antt =====
-- xgroup_consent.py: the queue of the target group and the test on the read path.
use th_layer_agent.Common.{
  ℕ, ltb, String, Bool, false, ◌&&◌, ◌||◌, Option, none, some, List, ◌==◌, take, if◌then◌else◌,
}
use th_layer_agent.Common.Exec.{Exec, pure, ◌>>=◌}
use th_layer_agent.Sql.{select, fetchone, order_by}
use th_layer_agent.Sql.Keys.{by_key}
use th_layer_agent.Reputation.DailyRoot.{text_le}
use th_layer_agent.Consent.{Error, Pending, Grant, Db, Host, parse_iso}

module _ (host : Host) where
  unfoldable pub list_pending_for_target : String → String → ℕ → Db → List Pending
  list_pending_for_target enterprise_id target_l2 limit db = take limit (
      order_by (λ a b. text_le b.proposed_at a.proposed_at)
        (select
          (λ r.
            (r.enterprise_id == enterprise_id)
            && (r.target_l2 == target_l2)
            && ((r.status == "proposed") || (r.status == "cosigned")))
          db.pending))

  -- `None` where the grant is absent
  unfoldable pub get_active_grant : String → Db → Option Grant
  get_active_grant grant_id db = fetchone (by_key (λ g. g.grant_id) grant_id) db.grants

  unfoldable pub is_grant_usable : String → ℕ → Exec Error Db Bool
  unfolding get_active_grant parse_iso
  is_grant_usable grant_id now db = elim (get_active_grant grant_id db) [
    | none ↦ (pure false db)
    | some row ↦
        if row.status == "active"
        then (do expires ← parse_iso host row.expires_at; pure (ltb now expires)) db
        else pure false db
  ]
