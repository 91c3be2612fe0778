-- ===== src/Reconcile/Writes/Cursor.antt =====
-- The changelog cursor only moves forward (`last-changelog.helpers.ts`).
use autoreas_mobile.Prelude.{
  ℕ, ◌≤◌, ◌≡◌, refl, Option, none, some, Bool, List, [], ◌∷◌, get_or, arith, max, ap, ◌∙◌,
}
use autoreas_mobile.Database.{Database, BridgeConfig, JsonText}
use autoreas_mobile.Drain.{apply_staged_and_incoming}
use autoreas_mobile.Outbox.Claim.{OutboxClaim}
use autoreas_mobile.Reconcile.Conflict.{ConflictOutcome}
use autoreas_mobile.Reconcile.Writes.{
  ApplyReconcileResponseWritesParams, write_conflict_outcomes, write_cursor, write_season_mode,
  apply_reconcile_response_writes, should_persist_last_changelog_id, forward_only_changelog_cursor,
  write_tokens,
}

abbrev pub cursor : BridgeConfig → ℕ
cursor config = get_or config.last_changelog_id 0

config-write_conflict_outcomes :
    (outcomes : List ConflictOutcome) (claim : OutboxClaim) (db : Database)
    → (write_conflict_outcomes outcomes claim db).bridge_config ≡ db.bridge_config
unfolding write_conflict_outcomes
config-write_conflict_outcomes [] claim db = refl
config-write_conflict_outcomes (o ∷ outcomes) claim db =
    config-write_conflict_outcomes outcomes claim _

config-pulled :
    (json : JsonText) (p : ApplyReconcileResponseWritesParams) (now : ℕ) (db : Database)
    → (apply_staged_and_incoming json p.normalized_changes now db).1.bridge_config
      ≡ db.bridge_config
unfolding apply_staged_and_incoming
config-pulled json p now db = refl

cursor-write_season_mode :
    (mode : Option Bool) (config : BridgeConfig)
    → cursor (write_season_mode mode config) ≡ cursor config
cursor-write_season_mode none config = refl
cursor-write_season_mode (some mode) config = refl

cursor-write_cursor :
    (last next : ℕ) (config : BridgeConfig)
    → (last ≤ cursor config)
    → cursor (write_cursor last next config) ≡ max (cursor config) next
unfolding write_cursor should_persist_last_changelog_id forward_only_changelog_cursor
cursor-write_cursor last next config h = ground arith

-- Where the stored cursor is no older than the one that the request was sent with, the cursor after
-- an answer is the later of the stored one and the answered one: a runtime that moved it on in the
-- meantime never loses its place.
pub cursor_moves_forward :
    (json : JsonText) (p : ApplyReconcileResponseWritesParams) (now : ℕ) (db : Database)
    → p.last_changelog_id ≤ cursor db.bridge_config
    → cursor (apply_reconcile_response_writes json p now db).bridge_config
      ≡ max (cursor db.bridge_config) p.next_last_changelog_id
unfolding apply_reconcile_response_writes
cursor_moves_forward json p now db h =
    let pulled = (apply_staged_and_incoming json p.normalized_changes now db).1 in
    let same : (write_conflict_outcomes p.conflict_outcomes p.claim
          (write_tokens p.confirmed_anime_tokens pulled)).bridge_config
        ≡ db.bridge_config =
      config-write_conflict_outcomes p.conflict_outcomes p.claim _ ∙ config-pulled json p now db in
    cursor-write_season_mode p.season_mode _
    ∙ ap (λ c. cursor (write_cursor p.last_changelog_id p.next_last_changelog_id c)) same
    ∙ cursor-write_cursor p.last_changelog_id p.next_last_changelog_id db.bridge_config h
