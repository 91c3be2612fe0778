-- ===== src/Projection/Drops.antt =====
-- Taking a failed gesture back (`dropAnimeMutationProjection` of
-- `anime-mutation-projection.helpers.ts`).
use autoreas_mobile.Prelude.{
  ℕ, ◌+◌, ◌≤◌, String, ◌≡◌, sym, ap, ◌∙◌, true, false, Option, some, List, [], ◌∷◌, ◌++◌, arith,
  Bool-cases, inl, inr, All, nat_eq,
}
use autoreas_mobile.Database.{Anime}
use autoreas_mobile.Mutation.Patch.{AnimeMutationProjectionFields}
use autoreas_mobile.Projection.{
  AnimeMutationProjectionEntry, AnimeMutationProjectionRecord, ProjectionStore, fields_eq,
  apply_projection, accept_projection, accept_on, publish, drop_projection, drop_record, drop_to,
}
use autoreas_mobile.Projection.Fold.{}
use autoreas_mobile.Projection.Gestures.{
  shown, set_record_self, entries_before-append, IsIssued, accept_projection-on, entry_for, joined,
  accept_on-changed, accept_on-idle,
}

-- Dropping the newest entry of a record leaves the record as it was before that entry.
drop_newest :
    (id : String) (n : ℕ) (store : ProjectionStore) (r : AnimeMutationProjectionRecord)
    (entry : AnimeMutationProjectionEntry)
    → store.state id ≡ some (record r { entries = r.entries ++ entry ∷ [] })
    → All (λ (e : AnimeMutationProjectionEntry). nat_eq e.id n ≡ false) r.entries
    → nat_eq entry.id n ≡ true
    → (drop_projection id n store).state id ≡ some r
unfolding drop_projection publish
drop_newest id n store r entry h others this =
    ap (λ o. (drop_record id n store o).state id) h
    ∙ ap (λ o. (drop_to id store r o).state id)
        (entries_before-append n r.entries entry others this)
    ∙ set_record_self store.state id r

older_are_others :
    (n : ℕ) (entries : List AnimeMutationProjectionEntry)
    → All (λ (e : AnimeMutationProjectionEntry). e.id ≤ n) entries
    → All (λ (e : AnimeMutationProjectionEntry). nat_eq e.id (n + 1) ≡ false) entries
older_are_others n [] all = tt
older_are_others n (e ∷ entries) all = (ground (arith, all.0), older_are_others n entries all.1)

module _ (id : String) (build_projected : Anime → AnimeMutationProjectionFields)
    (store : ProjectionStore) (durable : Anime) (r : AnimeMutationProjectionRecord)
    (h : store.state id ≡ some r) (d : r.durable ≡ some durable) where
  drop_changed :
      IsIssued store.entry_id (some r)
      → fields_eq
          (build_projected (apply_projection durable store.state))
          (shown durable store.state)
        ≡ false
      → (drop_projection id
            (store.entry_id + 1)
            (accept_projection id build_projected store).1).state
          id
        ≡ some r
  unfolding publish
  drop_changed issued changed =
      ap
        (λ (p : Option ℕ × ProjectionStore). (drop_projection id (store.entry_id + 1) p.1).state id)
        (accept_projection-on id build_projected store durable r h d
          ∙ accept_on-changed id build_projected store durable r changed)
      ∙ drop_newest id (store.entry_id + 1) _ r (entry_for id build_projected store durable)
          (set_record_self store.state id (joined id build_projected store durable r))
          (older_are_others store.entry_id r.entries issued) (ground arith)

  -- A gesture that was accepted and then failed leaves no trace: dropping the entry that it was
  -- given puts back the record of its anime, where no entry of that record was newer than the
  -- counter.
  pub drop_undoes_accept :
      {n : ℕ}
      → IsIssued store.entry_id (some r)
      → (accept_projection id build_projected store).0 ≡ some n
      → (drop_projection id n (accept_projection id build_projected store).1).state id
        ≡ store.state id
  drop_undoes_accept {n} issued accepted =
      let given : (accept_on id build_projected store durable r).0 ≡ some n =
        ap (λ (p : Option ℕ × ProjectionStore). p.0)
          (sym (accept_projection-on id build_projected store durable r h d))
        ∙ accepted in
      elim (Bool-cases (
        fields_eq (build_projected (apply_projection durable store.state))
          (shown durable store.state))) [
            | inl idle ↦
                absurd
                  (ground (arith, accept_on-idle id build_projected store durable r idle, given))
            | inr changed ↦
                let is_next : store.entry_id + 1 ≡ n = ground (
                  arith,
                  ap (λ (p : Option ℕ × ProjectionStore). p.0)
                      (accept_on-changed id build_projected store durable r changed),
                  given,
                ) in
                ap
                  (λ m.
                    (drop_projection id m (accept_projection id build_projected store).1).state id)
                  (sym is_next)
                ∙ drop_changed issued changed
                ∙ sym h
          ]
