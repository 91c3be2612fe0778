-- ===== src/Reconcile/Conflict/Attempts.antt =====
-- A losing race ends (`classifyRejectedOperation` of `reconcile-conflict.helpers.ts`).
use autoreas_mobile.Prelude.{
  ℕ, zero, suc, ◌+◌, ◌≤◌, ◌≡◌, inl, inr, refl, sym, ap, ◌∙◌, Bool, true, false, Option, none, some,
  arith, if◌then◌else◌, leb, nat_opt_eq, Bool-cases, nat_eq_refl,
}
use autoreas_mobile.Reconcile.Conflict.{
  ReconcileAppliedOperation, RejectedOperationClassification, progress, exhausted,
  classify_conflict, classify_rejected_operation, conflict_attempt_cap, reason_conflict,
}

-- What is stored for an operation between two answers: the token of its anime and its counter.
abbrev pub Stored : Type 0
Stored = Option ℕ × ℕ

abbrev pub after_answer : Stored → RejectedOperationClassification → Stored
after_answer stored (progress token count) = (some token, count)
after_answer stored c = stored

abbrev pub stop_or : Bool → RejectedOperationClassification → Bool
stop_or rest (exhausted token count) = true
stop_or rest c = rest

-- Whether one of `n` answers that are the same rejection gives the operation up.
abbrev pub is_given_up_within : ℕ → ReconcileAppliedOperation → Stored → Bool
is_given_up_within zero entry stored = false
is_given_up_within (suc n) entry stored =
    let answer = classify_rejected_operation entry stored.0 stored.1 in
    stop_or (is_given_up_within n entry (after_answer stored answer)) answer

abbrev pub IsConflict : ReconcileAppliedOperation → ℕ → Type 0
IsConflict entry token = (entry.reason ≡ some reason_conflict) × (entry.modified_at ≡ some token)

classify-conflict :
    (entry : ReconcileAppliedOperation) (token : ℕ) (stored : Option ℕ) (current : ℕ)
    → IsConflict entry token
    → classify_rejected_operation entry stored current ≡ classify_conflict token stored current
unfolding classify_rejected_operation
classify-conflict entry token stored current c = ground (arith, c.0, c.1)

conflict-same :
    (token current : ℕ)
    → classify_conflict token (some token) current ≡ (
        if leb conflict_attempt_cap (current + 1)
        then exhausted token (current + 1)
        else progress token (current + 1))
unfolding classify_conflict
conflict-same token current = rw (nat_eq_refl token) refl

conflict-new :
    (token : ℕ) (stored : Option ℕ) (current : ℕ)
    → nat_opt_eq stored (some token) ≡ false
    → classify_conflict token stored current ≡ progress token 0
unfolding classify_conflict
conflict-new token stored current new = rw new refl

nat_opt_eq-some :
    (stored : Option ℕ) (token : ℕ) → nat_opt_eq stored (some token) ≡ true → stored ≡ some token
nat_opt_eq-some none token h = absurd (ground arith)
nat_opt_eq-some (some t) token h = ground arith

module _ (entry : ReconcileAppliedOperation) (token : ℕ) (c : IsConflict entry token) where
  answer-eq :
      (n : ℕ) (stored : Stored) (answer : RejectedOperationClassification)
      → classify_conflict token stored.0 stored.1 ≡ answer
      → is_given_up_within (suc n) entry stored
        ≡ stop_or (is_given_up_within n entry (after_answer stored answer)) answer
  answer-eq n stored answer h =
      ap (λ a. stop_or (is_given_up_within n entry (after_answer stored a)) a)
        (classify-conflict entry token stored.0 stored.1 c ∙ h)

  repeated :
      (n current : ℕ)
      → conflict_attempt_cap ≤ n + current
      → 1 ≤ n
      → is_given_up_within n entry (some token, current) ≡ true
  unfolding conflict_attempt_cap
  repeated zero current h h1 = absurd (omega arith)
  repeated (suc n) current h h1 = elim (Bool-cases (leb 3 (current + 1))) [
    | inl last ↦
        answer-eq n (some token, current) (exhausted token (current + 1))
          (conflict-same token current ∙ rw last refl)
    | inr more ↦
        answer-eq n (some token, current) (progress token (current + 1))
          (conflict-same token current ∙ rw more refl)
        ∙ repeated n (current + 1) (ground arith) (ground arith)
  ]

  -- An operation that the bridge keeps refusing with the same conflict is given up, and so does not
  -- block its anime for ever: whatever token and counter it starts with, one more answer than the cap
  -- is enough.
  pub losing_race_ends :
      (stored : Option ℕ) (current : ℕ)
      → is_given_up_within (conflict_attempt_cap + 1) entry (stored, current) ≡ true
  unfolding conflict_attempt_cap
  losing_race_ends stored current = elim (Bool-cases (nat_opt_eq stored (some token))) [
    | inl same ↦
        ap (λ s. is_given_up_within 4 entry (s, current)) (nat_opt_eq-some stored token same)
        ∙ repeated 4 current (omega arith) (omega arith)
    | inr new ↦
        answer-eq 3 (stored, current) (progress token 0) (conflict-new token stored current new)
        ∙ repeated 3 0 (omega arith) (omega arith)
  ]

  given_up_same :
      (current : ℕ) {attempts : ℕ}
      → classify_conflict token (some token) current ≡ exhausted token attempts
      → (attempts ≡ current + 1) × (conflict_attempt_cap ≤ attempts)
  unfolding conflict_attempt_cap
  given_up_same current {attempts} e = ground (arith, conflict-same token current, e)

  -- A conflict with a token gives its operation up only where the token is the one stored already,
  -- and only once the attempts, this one counted, have reached the cap.
  pub given_up_at_the_cap :
      (stored : Option ℕ) (current : ℕ) {attempts : ℕ}
      → classify_rejected_operation entry stored current ≡ exhausted token attempts
      → (stored ≡ some token) × (attempts ≡ current + 1) × (conflict_attempt_cap ≤ attempts)
  given_up_at_the_cap stored current {attempts} e =
      let conflict : classify_conflict token stored current ≡ exhausted token attempts =
        sym (classify-conflict entry token stored current c) ∙ e in
      elim (Bool-cases (nat_opt_eq stored (some token))) [
        | inl same ↦
            let is_stored = nat_opt_eq-some stored token same in
            let at_cap =
              given_up_same current
                (sym (ap (λ s. classify_conflict token s current) is_stored) ∙ conflict) in
            (is_stored, at_cap.0, at_cap.1)
        | inr new ↦ absurd (ground (arith, conflict-new token stored current new, conflict))
      ]
