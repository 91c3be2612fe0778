-- ===== src/Projection/Fold.antt =====
-- Laws of `foldAnimeMutationProjection` (`anime-mutation-projection.helpers.ts`).
use autoreas_mobile.Prelude.{
  ◌≡◌, refl, ap, ◌∙◌, true, List, [], ◌∷◌, ◌++◌, arith, Bool-cases, inl, inr,
}
use autoreas_mobile.Mutation.Patch.{AnimeMutationProjectionFields}
use autoreas_mobile.Projection.{
  AnimeMutationProjectionEntry, fields_eq, push_front, fold_projection,
}

pub fields_eq-eq : (a b : AnimeMutationProjectionFields) → fields_eq a b ≡ true → a ≡ b
unfolding fields_eq
fields_eq-eq a b h = ground arith

pub fields_eq_refl : (a : AnimeMutationProjectionFields) → fields_eq a a ≡ true
unfolding fields_eq
fields_eq_refl a = ground arith

-- Each entry starts from the value that the one before it reached.
abbrev pub IsChain :
    AnimeMutationProjectionFields
    → List AnimeMutationProjectionEntry
    → AnimeMutationProjectionFields
    → Type 0
IsChain from [] to = from ≡ to
IsChain from (entry ∷ entries) to = (entry.base ≡ from) × IsChain entry.projected entries to

-- The entries that a fold keeps are a chain from the durable value to the value that it reaches.
pub fold_projection-IsChain :
    (entries : List AnimeMutationProjectionEntry) (from : AnimeMutationProjectionFields)
    → IsChain from (fold_projection entries from).entries (fold_projection entries from).fields
unfolding fold_projection
fold_projection-IsChain [] from = refl
fold_projection-IsChain (entry ∷ entries) from = elim (Bool-cases (fields_eq entry.base from)) [
  | inl continues ↦
      rw continues
        (fields_eq-eq entry.base from continues, fold_projection-IsChain entries entry.projected)
  | inr stale ↦ rw stale (fold_projection-IsChain entries from)
]

-- A chain folds to itself.
fold_projection_of_chain :
    (entries : List AnimeMutationProjectionEntry) (from to : AnimeMutationProjectionFields)
    → IsChain from entries to
    → fold_projection entries from ≡ record { fields = to; entries = entries }
unfolding fold_projection
fold_projection_of_chain [] from to c = ground arith
fold_projection_of_chain (entry ∷ entries) from to c =
    let continues : fields_eq entry.base from ≡ true =
      ap (λ b. fields_eq b from) c.0 ∙ fields_eq_refl from in
    rw continues (ap (push_front entry) (fold_projection_of_chain entries entry.projected to c.1))

-- Folding what a fold kept keeps all of it and reaches the same value.
pub fold_projection_idem :
    (entries : List AnimeMutationProjectionEntry) (from : AnimeMutationProjectionFields)
    → fold_projection (fold_projection entries from).entries from ≡ fold_projection entries from
fold_projection_idem entries from =
    fold_projection_of_chain (fold_projection entries from).entries from
      (fold_projection entries from).fields (fold_projection-IsChain entries from)

-- An entry built from the value that a fold reaches extends it.
pub fold_projection-append :
    (entries : List AnimeMutationProjectionEntry) (entry : AnimeMutationProjectionEntry)
    (from : AnimeMutationProjectionFields)
    → entry.base ≡ (fold_projection entries from).fields
    → fold_projection (entries ++ entry ∷ []) from ≡ record {
      fields = entry.projected;
      entries = (fold_projection entries from).entries ++ entry ∷ [];
    }
unfolding fold_projection
fold_projection-append [] entry from start = rw (start, fields_eq_refl from) refl
fold_projection-append (e ∷ entries) entry from start = elim (Bool-cases (fields_eq e.base from)) [
  | inl continues ↦
      rw continues (
        ap (push_front e)
          (fold_projection-append entries entry e.projected (rw continues at start)))
  | inr stale ↦ rw stale (fold_projection-append entries entry from (rw stale at start))
]
