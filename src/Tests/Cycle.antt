-- ===== src/Tests/Cycle.antt =====
-- Witnesses of a cycle: the bridge rejects the first batch, knows a token of each anime, and
-- answers each message that is sent alone; meanwhile the person makes an edit.
use autoreas_mobile.Prelude.{
  ℕ, String, ◌+◌, ◌≡◌, ◌≢◌, ◌&&◌, ◌∙◌, refl, ap, sym, ne-of-==, true, false, Option, none, some,
  List, [], ◌∷◌, ◌++◌, nat_eq, leb, Elem, append-Elem, inl, inr, arith, if◌then◌else◌, contains,
}
use autoreas_mobile.Database.{OperationLogRow}
use autoreas_mobile.Database.Tables.{find_anime}
use autoreas_mobile.Merge.Apply.{load_pending_outbox_record_ids}
use autoreas_mobile.Outbox.Claim.{under_claim, is_held}
use autoreas_mobile.Reconcile.Request.{json_number}
use autoreas_mobile.Reconcile.Round.{ReconcileResponse}
use autoreas_mobile.Reconcile.Writes.Release.{IsReleased}
use autoreas_mobile.Season.{
  SeasonRatingIntentInput, build_season_rating_request, season_rating_row,
  classify_season_rating_answer, retried,
}
use autoreas_mobile.Season.Answers.{
  stored_payload, rating_request, queued_rating_is_sent, is_delivery, is_rejection,
  each_status_has_one_fate,
}
use autoreas_mobile.Cycle.{World, CycleState, IsQuiet, IsTimed, refused, answered, anime_answer}
use autoreas_mobile.Cycle.Chain.{js_claim, sync_pending_operations}
use autoreas_mobile.Cycle.Chain.Complete.{IsOverAndFree, nothing_stays_claimed}
use autoreas_mobile.Heal.{IngestedAnime, resync_from_bridge_snapshot}
use autoreas_mobile.Heal.Stored.{IsSynced}
use autoreas_mobile.Heal.Synced.{IsDistinct, resync_writes_snapshot}
use autoreas_mobile.Heal.Kept.{resync_leaves_local_edits}
use autoreas_mobile.Tests.Data.{
  json, database, operation_1, operation_3, operation_of, claim_js, frieren_remote,
}

abbrev response : ReconcileResponse
response = record {
  applied_operations =
      record {
        anime_id = "a";
        operation = "update";
        applied = true;
        modified_at = some 8;
        reason = none;
      }
      ∷ [];
  bridge_changes = [];
  last_changelog_id = some 41;
  season_mode = none;
}

abbrev edit_meanwhile : OperationLogRow
edit_meanwhile = operation_of 9 "c" 30

abbrev pub world : World
world = record {
  json = json;
  parse = λ payload. none;
  device_id = some "phone";
  reconcile = λ n body. if leb n 3 then refused 422 else answered response [];
  get_anime = λ n id. anime_answer 200 true (some (("modified_at", json_number 7) ∷ []));
  post_active_season_rating = λ n request. some 204;
  meanwhile = λ n db.
      if nat_eq n 2
      then record db { operation_log = db.operation_log ++ edit_meanwhile ∷ [] }
      else db;
  clock = λ n. 100 + n + n;
  is_write_failed = λ n. nat_eq n 5;
  is_token_write_failed = λ n. nat_eq n 40;
}

abbrev state : CycleState
state = record { db = database; issued = 0 }

appended_is_quiet :
    (n : ℕ) (rows : List OperationLogRow)
    → IsReleased (js_claim 100) n rows
    → IsReleased (js_claim 100) n (rows ++ edit_meanwhile ∷ [])
unfolding is_held
appended_is_quiet n rows free r m same = elim (append-Elem r rows (edit_meanwhile ∷ []) m) [
  | inl old ↦ free r old same
  | inr (inl e) ↦ ap (is_held (js_claim 100)) e
  | inr (inr none_left) ↦ absurd none_left
]

world-IsQuiet : IsQuiet world (js_claim 100)
world-IsQuiet n k db free =
    elim (nat_eq k 2)
      as (λ b.
        IsReleased (js_claim 100) n
          (if b
            then record db { operation_log = db.operation_log ++ edit_meanwhile ∷ [] }
            else db).operation_log) [
              | true ↦ appended_is_quiet n db.operation_log free
              | false ↦ free
            ]

database_is_fresh :
    (r : OperationLogRow) → Elem r database.operation_log → is_held (js_claim 100) r ≡ false
unfolding is_held
database_is_fresh r (inl e) = ap (is_held (js_claim 100)) e
database_is_fresh r (inr (inl e)) = ap (is_held (js_claim 100)) e
database_is_fresh r (inr (inr (inl e))) = ap (is_held (js_claim 100)) e
database_is_fresh r (inr (inr (inr none_left))) = absurd none_left

pub world-IsTimed : IsTimed world (js_claim 100)
world-IsTimed k = omega arith

nothing_stays_claimed_example :
    IsOverAndFree (js_claim 100) (sync_pending_operations world 20001 true 100 0 state)
nothing_stays_claimed_example =
    nothing_stays_claimed world 20001 100 0 state world-IsQuiet database_is_fresh true world-IsTimed
      (omega arith)

-- The first operation, held under the claim of the cycle.
abbrev held_1 : OperationLogRow
held_1 = under_claim claim_js operation_1

abbrev held_state : CycleState
held_state = record {
  db = record database { operation_log = held_1 ∷ operation_3 ∷ [] };
  issued = 0;
}

abbrev no_tokens : String → Option ℕ
no_tokens id = none

abbrev pub remote_a : IngestedAnime
remote_a = record { anime = frieren_remote; bridge_modified_at = 12 }

abbrev remote_b : IngestedAnime
remote_b = record { anime = record frieren_remote { id = "c" }; bridge_modified_at = 15 }

a_is_unconfirmed : contains (load_pending_outbox_record_ids database.operation_log) "a" ≡ true
unfolding load_pending_outbox_record_ids
a_is_unconfirmed = refl

resync_leaves_local_edits_example :
    (find_anime (resync_from_bridge_snapshot json true (remote_a ∷ []) database).1.animes "a"
      ≡ find_anime database.animes "a")
    × ((resync_from_bridge_snapshot json true (remote_a ∷ []) database).1.operation_log
        ≡ database.operation_log)
resync_leaves_local_edits_example =
    resync_leaves_local_edits json "a" true (remote_a ∷ []) database a_is_unconfirmed

each_status_has_one_fate_example :
    (is_delivery (classify_season_rating_answer (some 409)) ≡ nat_eq 409 204)
    × (is_rejection (classify_season_rating_answer (some 409)) ≡ (leb 400 409 && leb 409 499))
    × (classify_season_rating_answer none ≡ retried)
each_status_has_one_fate_example = each_status_has_one_fate 409

-- A rating of a season, and a codec that knows its payload.
abbrev rating : SeasonRatingIntentInput
rating = record { season_id = "s1"; anime_id = "a"; nota = 4; rated_at = 90 }

queued_rating_is_sent_example :
    build_season_rating_request
      (λ payload. some (stored_payload rating))
      (season_rating_row (λ o. "payload") 4 rating 95)
    ≡ rating_request rating
queued_rating_is_sent_example =
    queued_rating_is_sent (λ payload. some (stored_payload rating)) (λ o. "payload") 4 95 rating
      refl

a_is_not_c : (other : IngestedAnime) → Elem other (remote_a ∷ []) → other.anime.id ≢ "c"
a_is_not_c other (inl e) same =
    let a_is_c : "a" ≡ "c" = sym (ap (λ (x : IngestedAnime). x.anime.id) e) ∙ same in
    ne-of-== "a" "c" refl a_is_c
a_is_not_c other (inr none_left) same = none_left

remote_is_distinct : IsDistinct (remote_b ∷ remote_a ∷ [])
remote_is_distinct = (a_is_not_c, ((λ other m. absurd m), tt))

c_is_free : contains (load_pending_outbox_record_ids database.operation_log) "c" ≡ false
unfolding load_pending_outbox_record_ids
c_is_free = refl

resync_writes_snapshot_example : IsSynced json remote_b (
    find_anime
      (resync_from_bridge_snapshot json true (remote_b ∷ remote_a ∷ []) database).1.animes
      "c")
resync_writes_snapshot_example =
    resync_writes_snapshot json (remote_b ∷ remote_a ∷ []) database remote_b remote_is_distinct
      (inl refl) c_is_free
