-- ===== src/Projection/Invariant.antt =====
-- The overlay's store over a session (`anime-mutation-projection.helpers.ts`): every order in which
-- the app accepts, drops, observes and resets.
use autoreas_mobile.Prelude.{
  ℕ, ◌+◌, ◌≤◌, String, refl, Bool, Option, none, some, List, [], ◌∷◌, ◌++◌, ◌==◌, arith, Bool-cases,
  inl, inr, All, eq-of-==, nat_eq,
}
use autoreas_mobile.Database.{Anime}
use autoreas_mobile.Mutation.Patch.{AnimeMutationProjectionFields}
use autoreas_mobile.Projection.{
  AnimeMutationProjectionEntry, AnimeMutationProjectionRecord, ProjectionStore, ProjectionState,
  Observation, fields_eq, fields_of, fold_projection, set_record, publish, record_silently,
  drop_record, drop_to, entries_before, entries_of, surviving_entries, is_absorbed, is_settled,
  observe_one, observe_from, conclude,
}
use autoreas_mobile.Projection.Gestures.{IsFiled}

-- What a record under an id holds: the durable row of that id, and entries issued so far.
abbrev pub IsRecordOf : ℕ → String → Option AnimeMutationProjectionRecord → Type 0
IsRecordOf n id none = Unit
IsRecordOf n id (some r) =
    IsFiled id r.durable × All (λ (e : AnimeMutationProjectionEntry). e.id ≤ n) r.entries

abbrev pub IsWellFormed : ℕ → ProjectionState → Type 0
IsWellFormed n state = (id : String) → IsRecordOf n id (state id)

pub Issued-next :
    (n : ℕ) (entries : List AnimeMutationProjectionEntry)
    → All (λ (e : AnimeMutationProjectionEntry). e.id ≤ n) entries
    → All (λ (e : AnimeMutationProjectionEntry). e.id ≤ n + 1) entries
Issued-next n [] all = tt
Issued-next n (e ∷ entries) all = (omega (arith, all.0), Issued-next n entries all.1)

IsRecordOf-next :
    (n : ℕ) (id : String) (r : Option AnimeMutationProjectionRecord)
    → IsRecordOf n id r
    → IsRecordOf (n + 1) id r
IsRecordOf-next n id none w = tt
IsRecordOf-next n id (some r) w = (w.0, Issued-next n r.entries w.1)

module _ (n : ℕ) where
  abbrev pub AreIssued : List AnimeMutationProjectionEntry → Type 0
  AreIssued entries = All (λ (e : AnimeMutationProjectionEntry). e.id ≤ n) entries

  pub Issued-append :
      (entries : List AnimeMutationProjectionEntry) (entry : AnimeMutationProjectionEntry)
      → AreIssued entries
      → entry.id ≤ n
      → AreIssued (entries ++ entry ∷ [])
  Issued-append [] entry all h = (h, tt)
  Issued-append (e ∷ entries) entry all h = (all.0, Issued-append entries entry all.1 h)

  Issued-fold :
      (entries : List AnimeMutationProjectionEntry) (from : AnimeMutationProjectionFields)
      → AreIssued entries
      → AreIssued (fold_projection entries from).entries
  unfolding fold_projection
  Issued-fold [] from all = tt
  Issued-fold (e ∷ entries) from all = elim (Bool-cases (fields_eq e.base from)) [
    | inl continues ↦ rw continues (all.0, Issued-fold entries e.projected all.1)
    | inr stale ↦ rw stale (Issued-fold entries from all.1)
  ]

  Issued-entries_of :
      (id : String) (r : Option AnimeMutationProjectionRecord)
      → IsRecordOf n id r
      → AreIssued (entries_of r)
  Issued-entries_of id none w = tt
  Issued-entries_of id (some r) w = w.1

  Issued-surviving :
      (id : String) (anime : Anime) (r : Option AnimeMutationProjectionRecord)
      → IsRecordOf n id r
      → AreIssued (surviving_entries anime r)
  unfolding surviving_entries
  Issued-surviving id anime r w =
      elim (Bool-cases (is_absorbed anime (fold_projection (entries_of r) (fields_of anime)))) [
        | inl absorbed ↦ rw absorbed tt
        | inr kept ↦
            rw kept (Issued-fold (entries_of r) (fields_of anime) (Issued-entries_of id r w))
      ]

  abbrev AreIssuedBefore : Option (List AnimeMutationProjectionEntry) → Type 0
  AreIssuedBefore none = Unit
  AreIssuedBefore (some before) = AreIssued before

  Issued-cons :
      (e : AnimeMutationProjectionEntry) (o : Option (List AnimeMutationProjectionEntry))
      → e.id ≤ n
      → AreIssuedBefore o
      → AreIssuedBefore (elim o [ none ↦ none | some before ↦ some (e ∷ before) ])
  Issued-cons e none h all = tt
  Issued-cons e (some before) h all = (h, all)

  Issued-before :
      (id : ℕ) (entries : List AnimeMutationProjectionEntry)
      → AreIssued entries
      → AreIssuedBefore (entries_before id entries)
  unfolding entries_before
  Issued-before id [] all = tt
  Issued-before id (e ∷ entries) all = elim (Bool-cases (nat_eq e.id id)) [
    | inl here ↦ rw here tt
    | inr later ↦
        rw later (Issued-cons e (entries_before id entries) all.0 (Issued-before id entries all.1))
  ]

  pub set_record-IsWellFormed :
      (state : ProjectionState) (id : String) (r : AnimeMutationProjectionRecord)
      → IsWellFormed n state
      → IsRecordOf n id (some r)
      → IsWellFormed n (set_record state id r)
  unfolding set_record
  set_record-IsWellFormed state id r w new j = elim (Bool-cases (id == j)) [
    | inl here ↦ rw here (rw⁻¹ (eq-of-== id j here) new)
    | inr there ↦ rw there (w j)
  ]

  drop_to-IsWellFormed :
      (id : String) (store : ProjectionStore) (r : AnimeMutationProjectionRecord)
      (o : Option (List AnimeMutationProjectionEntry))
      → IsWellFormed n store.state
      → IsFiled id r.durable
      → AreIssuedBefore o
      → IsWellFormed n (drop_to id store r o).state
  unfolding publish
  drop_to-IsWellFormed id store r none w filed all = w
  drop_to-IsWellFormed id store r (some before) w filed all =
      set_record-IsWellFormed store.state id (record r { entries = before }) w (filed, all)

  pub drop_record-IsWellFormed :
      (id : String) (entry_id : ℕ) (store : ProjectionStore)
      (o : Option AnimeMutationProjectionRecord)
      → IsWellFormed n store.state
      → IsRecordOf n id o
      → IsWellFormed n (drop_record id entry_id store o).state
  drop_record-IsWellFormed id entry_id store none w this = w
  drop_record-IsWellFormed id entry_id store (some r) w this =
      drop_to-IsWellFormed id store r (entries_before entry_id r.entries) w this.0
        (Issued-before entry_id r.entries this.1)

  module _ (is_same_object : Anime → Anime → Bool) where
    observe_one-IsWellFormed :
        (anime : Anime) (o : Observation)
        → IsWellFormed n o.by_anime_id
        → IsWellFormed n (observe_one is_same_object anime o).by_anime_id
    unfolding observe_one
    observe_one-IsWellFormed anime o w =
        elim (Bool-cases (is_settled is_same_object anime (o.by_anime_id anime.id))) [
          | inl settled ↦ rw settled w
          | inr moved ↦ rw moved (
              set_record-IsWellFormed o.by_anime_id anime.id _ w
                (refl, Issued-surviving anime.id anime (o.by_anime_id anime.id) (w anime.id)))
        ]

    pub observe_from-IsWellFormed :
        (animes : List Anime) (o : Observation)
        → IsWellFormed n o.by_anime_id
        → IsWellFormed n (observe_from is_same_object animes o).by_anime_id
    unfolding observe_from
    observe_from-IsWellFormed [] o w = w
    observe_from-IsWellFormed (anime ∷ animes) o w =
        observe_from-IsWellFormed animes (observe_one is_same_object anime o)
          (observe_one-IsWellFormed anime o w)

    pub conclude-IsWellFormed :
        (o : Observation) (store : ProjectionStore)
        → IsWellFormed n o.by_anime_id
        → IsWellFormed n store.state
        → IsWellFormed n (conclude is_same_object o store).state
    unfolding publish record_silently
    conclude-IsWellFormed o store observed w = elim (Bool-cases o.did_change) [
      | inl changed ↦ elim (Bool-cases o.did_retire) [
        | inl retired ↦ rw (changed, retired) observed
        | inr silent ↦ rw (changed, silent) observed
      ]
      | inr settled ↦ rw settled w
    ]

pub IsWellFormed-next :
    (n : ℕ) (state : ProjectionState) → IsWellFormed n state → IsWellFormed (n + 1) state
IsWellFormed-next n state w id = IsRecordOf-next n id (state id) (w id)
