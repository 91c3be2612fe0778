-- ===== src/Tests/Outbox.antt =====
-- Witnesses of the outbox: one batch over two animes, claimed by JS, and Kotlin beside it.
use autoreas_mobile.Prelude.{◌≡◌, ◌≢◌, refl, true, List, [], ◌∷◌, ◌++◌, Elem, inl, inr, arith}
use autoreas_mobile.Sql.{update_where}
use autoreas_mobile.Sql.Order.{sort_by}
use autoreas_mobile.Database.{OperationLogRow, synced}
use autoreas_mobile.Outbox.Backlog.{
  is_before, is_claimed_key, is_live_claim, is_oldest_of_anime, ranked_rows,
}
use autoreas_mobile.Outbox.Claim.{
  is_held, as_processing, under_claim, claim_operation_log_batch, claim_candidates, is_claimable,
  won_rows, write_held_status,
}
use autoreas_mobile.Outbox.Claim.Exclusion.{
  Steps, here, next, batch, write, queue, held_row_survives, no_second_claim,
}
use autoreas_mobile.Outbox.Claim.Batch.{due_row_is_claimed}
use autoreas_mobile.Tests.Data.{
  operation_of, operation_1, operation_2, operation_3, log, claim_js, claim_native,
}

-- The rows of the first batch: the oldest one of each anime.
taken_1 : Elem (as_processing operation_1) (claim_operation_log_batch claim_js 200 log).0
unfolding claim_operation_log_batch claim_candidates is_claimable won_rows ranked_rows
    is_oldest_of_anime sort_by is_live_claim is_claimed_key is_before update_where
taken_1 = inl refl

due_row_is_claimed_example :
    Elem (as_processing operation_3) (claim_operation_log_batch claim_js 200 log).0
unfolding ranked_rows is_oldest_of_anime is_claimed_key is_live_claim is_before
due_row_is_claimed_example =
    due_row_is_claimed claim_js 200 log operation_3 (inr (inr (inl refl))) refl refl refl
      (omega arith)

-- The outbox while JS holds the first row: Kotlin takes a batch, writes under its claim, and the person
-- makes an edit.
abbrev held_1 : OperationLogRow
held_1 = under_claim claim_js operation_1

abbrev held_log : List OperationLogRow
held_log = held_1 ∷ operation_2 ∷ operation_3 ∷ []

held_1-is_held : is_held claim_js held_1 ≡ true
unfolding is_held
held_1-is_held = refl

other_claim : claim_native ≢ claim_js
other_claim e = ground (arith, e)

abbrev later_log : List OperationLogRow
later_log = (claim_operation_log_batch claim_native 200 held_log).1

steps :
    Steps claim_js held_log
      (write_held_status (3 ∷ []) claim_native synced later_log ++ operation_of 4 "a" 102 ∷ [])
steps =
    next
      (next (next here (batch held_log claim_native 200 (omega arith)))
        (write later_log claim_native (3 ∷ []) synced other_claim))
      (queue (write_held_status (3 ∷ []) claim_native synced later_log) (operation_of 4 "a" 102))

held_row_survives_example :
    Elem held_1
      (write_held_status (3 ∷ []) claim_native synced later_log ++ operation_of 4 "a" 102 ∷ [])
held_row_survives_example = held_row_survives claim_js held_1 held_1-is_held steps (inl refl)

taken_3 : Elem (as_processing operation_3) (claim_operation_log_batch claim_native 200 held_log).0
unfolding claim_operation_log_batch claim_candidates is_claimable won_rows ranked_rows
    is_oldest_of_anime sort_by is_live_claim is_claimed_key is_before update_where
taken_3 = inl refl

no_second_claim_example : operation_3.anime_id ≢ held_1.anime_id
no_second_claim_example =
    no_second_claim claim_js held_1 held_1-is_held claim_native 200 (as_processing operation_3) here
      (inl refl) (omega arith) taken_3
