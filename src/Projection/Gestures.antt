-- ===== src/Projection/Gestures.antt =====
-- What a card shows once a gesture is accepted (`acceptAnimeMutationProjection` of
-- `anime-mutation-projection.helpers.ts`).
use autoreas_mobile.Prelude.{
  ℕ, ◌+◌, ◌≤◌, String, ◌≡◌, refl, sym, ap, ◌∙◌, true, false, Option, none, some, List, [], ◌∷◌,
  ◌++◌, Bool-cases, inl, inr, All, eq_refl, nat_eq,
}
use autoreas_mobile.Database.{Anime}
use autoreas_mobile.Mutation.Patch.{AnimeMutationProjectionFields}
use autoreas_mobile.Projection.{
  AnimeMutationProjectionEntry, AnimeMutationProjectionRecord, AnimeMutationProjectionFold,
  ProjectionStore, ProjectionState, fields_eq, fields_of, fold_projection, set_record,
  apply_projection, accept_projection, accept_record, accept_durable, accept_on, overlay,
  overlay_record, publish, entries_before,
}
use autoreas_mobile.Projection.Fold.{
  IsChain, fold_projection-IsChain, fold_projection-append, fields_eq-eq,
}

-- The two fields that a card shows for an anime.
abbrev pub shown : Anime → ProjectionState → AnimeMutationProjectionFields
shown anime state = fields_of (apply_projection anime state)

overlay_of_chain :
    (anime : Anime) (fields : AnimeMutationProjectionFields)
    (entries : List AnimeMutationProjectionEntry)
    → IsChain (fields_of anime) entries fields
    → fields_of (overlay anime (record { fields = fields; entries = entries })) ≡ fields
overlay_of_chain anime fields [] c = c
overlay_of_chain anime fields (e ∷ entries) c = refl

-- A card shows the value that the fold of its gestures reaches.
pub overlay_shows :
    (anime : Anime) (entries : List AnimeMutationProjectionEntry)
    → fields_of (overlay anime (fold_projection entries (fields_of anime)))
      ≡ (fold_projection entries (fields_of anime)).fields
overlay_shows anime entries =
    let folded = fold_projection entries (fields_of anime) in
    overlay_of_chain anime folded.fields folded.entries
      (fold_projection-IsChain entries (fields_of anime))

pub shown-record :
    (anime : Anime) (state : ProjectionState) {r : AnimeMutationProjectionRecord}
    → state anime.id ≡ some r
    → shown anime state ≡ (fold_projection r.entries (fields_of anime)).fields
unfolding apply_projection
shown-record anime state {r} h =
    ap (λ o. fields_of (overlay_record anime o)) h ∙ overlay_shows anime r.entries

pub set_record_self :
    (state : ProjectionState) (id : String) (r : AnimeMutationProjectionRecord)
    → set_record state id r id ≡ some r
unfolding set_record
set_record_self state id r = rw (eq_refl id) refl

pub entries_before-append :
    (n : ℕ) (entries : List AnimeMutationProjectionEntry) (entry : AnimeMutationProjectionEntry)
    → All (λ (e : AnimeMutationProjectionEntry). nat_eq e.id n ≡ false) entries
    → nat_eq entry.id n ≡ true
    → entries_before n (entries ++ entry ∷ []) ≡ some entries
unfolding entries_before
entries_before-append n [] entry others this = rw this refl
entries_before-append n (e ∷ entries) entry others this =
    rw (others.0, entries_before-append n entries entry others.1 this) refl

-- The durable rows are filed under their own ids, and no entry is newer than the counter.
abbrev pub IsFiled : String → Option Anime → Type 0
IsFiled id none = Unit
IsFiled id (some anime) = anime.id ≡ id

abbrev pub IsIssued : ℕ → Option AnimeMutationProjectionRecord → Type 0
IsIssued n none = Unit
IsIssued n (some r) = All (λ (e : AnimeMutationProjectionEntry). e.id ≤ n) r.entries

pub accept_projection-on :
    (id : String) (build_projected : Anime → AnimeMutationProjectionFields)
    (store : ProjectionStore) (durable : Anime) (r : AnimeMutationProjectionRecord)
    → store.state id ≡ some r
    → r.durable ≡ some durable
    → accept_projection id build_projected store ≡ accept_on id build_projected store durable r
unfolding accept_projection
accept_projection-on id build_projected store durable r h d =
    ap (accept_record id build_projected store) h
    ∙ ap (λ o. accept_durable id build_projected store o r) d

module _ (id : String) (build_projected : Anime → AnimeMutationProjectionFields)
    (store : ProjectionStore) where
  -- The entry that a gesture on a durable row makes, and the record that it joins.
  abbrev pub entry_for : Anime → AnimeMutationProjectionEntry
  entry_for durable = record {
    id = store.entry_id + 1;
    base = shown durable store.state;
    projected = build_projected (apply_projection durable store.state);
  }

  abbrev pub joined : Anime → AnimeMutationProjectionRecord → AnimeMutationProjectionRecord
  joined durable r = record r { entries = r.entries ++ entry_for durable ∷ [] }

  joined_is_shown :
      (durable : Anime) (r : AnimeMutationProjectionRecord)
      → durable.id ≡ id
      → store.state id ≡ some r
      → shown durable (set_record store.state id (joined durable r))
        ≡ build_projected (apply_projection durable store.state)
  joined_is_shown durable r same h =
      shown-record durable (set_record store.state id (joined durable r)) (
        ap (set_record store.state id (joined durable r)) same
        ∙ set_record_self store.state id (joined durable r))
      ∙ ap (λ (f : AnimeMutationProjectionFold). f.fields)
          (fold_projection-append r.entries (entry_for durable) (fields_of durable)
            (shown-record durable store.state (ap store.state same ∙ h)))

  accepted_on :
      (durable : Anime) (r : AnimeMutationProjectionRecord)
      → durable.id ≡ id
      → store.state id ≡ some r
      → shown durable (accept_on id build_projected store durable r).1.state
        ≡ build_projected (apply_projection durable store.state)
  unfolding publish
  accepted_on durable r same h =
      elim (Bool-cases (
        fields_eq (build_projected (apply_projection durable store.state))
          (shown durable store.state))) [
            | inl idle ↦ rw idle (
                sym (
                  fields_eq-eq (build_projected (apply_projection durable store.state))
                    (shown durable store.state) idle))
            | inr changed ↦ rw changed (joined_is_shown durable r same h)
          ]

  -- Where the record of an anime has its durable row, filed under its own id, accepting a gesture
  -- makes the card show the values that the gesture was built to reach from what it showed before.
  pub accepted_is_shown :
      (durable : Anime) (r : AnimeMutationProjectionRecord)
      → store.state id ≡ some r
      → r.durable ≡ some durable
      → durable.id ≡ id
      → shown durable (accept_projection id build_projected store).1.state
        ≡ build_projected (apply_projection durable store.state)
  accepted_is_shown durable r h d same =
      ap (λ (p : Option ℕ × ProjectionStore). shown durable p.1.state)
        (accept_projection-on id build_projected store durable r h d)
      ∙ accepted_on durable r same h

  pub accept_on-changed :
      (durable : Anime) (r : AnimeMutationProjectionRecord)
      → fields_eq
          (build_projected (apply_projection durable store.state))
          (shown durable store.state)
        ≡ false
      → accept_on id build_projected store durable r ≡ (
        some (store.entry_id + 1),
        publish
            (set_record store.state id (joined durable r))
            (record store { entry_id = store.entry_id + 1 }),
      )
  accept_on-changed durable r changed = rw changed refl

  -- A gesture that is shown already has no entry.
  pub accept_on-idle :
      (durable : Anime) (r : AnimeMutationProjectionRecord)
      → fields_eq
          (build_projected (apply_projection durable store.state))
          (shown durable store.state)
        ≡ true
      → (accept_on id build_projected store durable r).0 ≡ none
  accept_on-idle durable r idle = rw idle refl
