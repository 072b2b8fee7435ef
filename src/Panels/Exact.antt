-- ===== src/Panels/Exact.antt =====
-- What the filters of Panels/Filters keep.
use logi_track.Base.{refl, ◌↔◌, ◌&&◌, List, arith, In, In-keep_if, Eq, keep_if}
use logi_track.Js.Text.{JsString}
use logi_track.Js.Search.{is_match, is_match_iff, IsFound, In-searched}
use logi_track.Console.Statuses.{order_status_eq}
use logi_track.Panels.Rows.{AlertPolicyAudit, ReplayAudit, OutboxRetryAudit}
use logi_track.Panels.Scopes.{
  Scope, in_scope, InScope, in_scope_iff, task_status_eq, transaction_type_eq,
}
use logi_track.Panels.Filters.{
  policy_audit_texts, outbox_audit_texts, replay_audit_texts, filtered_policy_audits,
  filtered_outbox_audits, filtered_replay_audits,
}

module _ (lower : JsString → JsString) where
  pub In-filtered :
      {A : Type 0} {S : Type 0} ⦃e : Eq S⦄ (status : A → S) (texts : A → List JsString)
      (scope : Scope S) (query : JsString) (rows : List A) (row : A)
      → In row (keep_if (λ r. in_scope scope (status r) && is_match lower query (texts r)) rows)
        ↔ (In row rows × InScope scope (status row) × IsFound lower query (texts row))
  In-filtered status texts scope query rows row = (
    λ h.
        let (m, t) = (In-keep_if _ rows row).0 h in
        (
          m,
          (in_scope_iff scope (status row)).0 (ground arith),
          (is_match_iff lower query (texts row)).0 (ground arith),
        ),
    λ (m, s, f).
        let s' = (in_scope_iff scope (status row)).1 s in
        let f' = (is_match_iff lower query (texts row)).1 f in
        (In-keep_if _ rows row).1 (m, rw (s', f') refl),
  )

  module _ {D : Type 0} where
    -- An audit of a policy, of an outbox retry or of a replay is shown exactly if it is one of the
    -- panel's audits and the query is blank or stands in one of its texts, both in lower case.
    pub audits_exact :
        (query : JsString) (policy_audits : List (AlertPolicyAudit D))
        (policy_audit : AlertPolicyAudit D) (outbox_audits : List OutboxRetryAudit)
        (outbox_audit : OutboxRetryAudit) (replay_audits : List ReplayAudit)
        (replay_audit : ReplayAudit)
        → (In policy_audit (filtered_policy_audits lower query policy_audits) ↔ (
            In policy_audit policy_audits × IsFound lower query (policy_audit_texts policy_audit)))
          × (In outbox_audit (filtered_outbox_audits lower query outbox_audits) ↔ (
              In outbox_audit outbox_audits
              × IsFound lower query (outbox_audit_texts outbox_audit)))
          × (In replay_audit (filtered_replay_audits lower query replay_audits) ↔ (
              In replay_audit replay_audits
              × IsFound lower query (replay_audit_texts replay_audit)))
    unfolding filtered_policy_audits filtered_outbox_audits filtered_replay_audits
    audits_exact query policy_audits policy_audit outbox_audits outbox_audit replay_audits
          replay_audit =
        (
          In-searched lower policy_audit_texts query policy_audits policy_audit,
          In-searched lower outbox_audit_texts query outbox_audits outbox_audit,
          In-searched lower replay_audit_texts query replay_audits replay_audit,
        )
