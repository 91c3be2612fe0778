-- ===== src/Sql.antt =====
-- The SQL forms that the program issues through `expo-sqlite` and drizzle, over a table as the
-- list of its rows: UPDATE and DELETE with a WHERE test; SELECT is `filterb`.
pub mod Order
use autoreas_mobile.Prelude.{
  ◌≡◌, ap, ◌⊎◌, inl, inr, Bool, true, false, not, Option, none, some, List, [], ◌∷◌, ◌++◌, any,
  length, filterb, Elem, if◌then◌else◌, arith, Bool-cases,
}

module _ {R : Type 0} where
  -- UPDATE table SET set WHERE test
  unfoldable pub update_where : (R → Bool) → (R → R) → List R → List R
  update_where test set [] = []
  update_where test set (r ∷ rows) = (if test r then set r else r) ∷ update_where test set rows

  -- DELETE FROM table WHERE test
  unfoldable pub delete_where : (R → Bool) → List R → List R
  delete_where test rows = filterb (λ r. not (test r)) rows

  -- SELECT ... WHERE test LIMIT 1
  unfoldable pub select_first : (R → Bool) → List R → Option R
  select_first test [] = none
  select_first test (r ∷ rows) = if test r then some r else select_first test rows

  pub length-update_where :
      (test : R → Bool) (set : R → R) (rows : List R)
      → length (update_where test set rows) ≡ length rows
  unfolding update_where
  length-update_where test set [] = ground arith
  length-update_where test set (r ∷ rows) = ground (arith, length-update_where test set rows)

  -- Where a row does not meet the test, it is in the table after an UPDATE as it was before.
  pub Elem-update_where :
      (test : R → Bool) (set : R → R) (r : R) (rows : List R)
      → Elem r rows
      → test r ≡ false
      → Elem r (update_where test set rows)
  unfolding update_where
  Elem-update_where test set r [] m h = m
  Elem-update_where test set r (s ∷ rows) (inl e) h = ground arith
  Elem-update_where test set r (s ∷ rows) (inr m) h = inr (Elem-update_where test set r rows m h)

  -- A row that meets the test is there with its new values.
  pub Elem-update_where_hit :
      (test : R → Bool) (set : R → R) (r : R) (rows : List R)
      → Elem r rows
      → test r ≡ true
      → Elem (set r) (update_where test set rows)
  unfolding update_where
  Elem-update_where_hit test set r [] m h = absurd m
  Elem-update_where_hit test set r (s ∷ rows) (inl e) h = ground arith
  Elem-update_where_hit test set r (s ∷ rows) (inr m) h =
      inr (Elem-update_where_hit test set r rows m h)

  -- Every row after an UPDATE is an old row that was not met, or the new values of one that was.
  pub update_where-Elem :
      (test : R → Bool) (set : R → R) (r : R) (rows : List R)
      → Elem r (update_where test set rows)
      → (Elem r rows × (test r ≡ false)) ⊎ ((s : R) × Elem s rows × (test s ≡ true) × (r ≡ set s))
  unfolding update_where
  update_where-Elem test set r [] m = absurd m
  update_where-Elem test set r (s ∷ rows) (inl e) = elim (Bool-cases (test s)) [
    | inl hit ↦ inr (s, ground arith, hit, ground arith)
    | inr miss ↦ inl (ground arith, ground arith)
  ]
  update_where-Elem test set r (s ∷ rows) (inr m) = elim (update_where-Elem test set r rows m) [
    | inl (old, miss) ↦ inl (inr old, miss)
    | inr (t, old, hit, e) ↦ inr (t, inr old, hit, e)
  ]

  -- An UPDATE that never meets the rows a test selects leaves that selection as it was.
  pub select_first-update_where :
      (find test : R → Bool) (set : R → R) (rows : List R)
      → ((r : R) → find r ≡ true → test r ≡ false)
      → ((r : R) → find r ≡ false → find (set r) ≡ false)
      → select_first find (update_where test set rows) ≡ select_first find rows
  unfolding select_first update_where
  select_first-update_where find test set [] apart stays = ground arith
  select_first-update_where find test set (r ∷ rows) apart stays =
      ground (arith, apart r, stays r, select_first-update_where find test set rows apart stays)

  -- An UPDATE of the very rows a test selects, which still select after it.
  pub select_first-update_where_self :
      (test : R → Bool) (set : R → R) (rows : List R) {r : R}
      → ((s : R) → test s ≡ true → test (set s) ≡ true)
      → select_first test rows ≡ some r
      → select_first test (update_where test set rows) ≡ some (set r)
  unfolding select_first update_where
  select_first-update_where_self test set [] keeps h = ground arith
  select_first-update_where_self test set (s ∷ rows) {r} keeps h =
      ground (arith, keeps s, select_first-update_where_self test set rows {r = r} keeps)

  pub select_first-Elem :
      (test : R → Bool) (rows : List R) {r : R}
      → select_first test rows ≡ some r
      → Elem r rows × (test r ≡ true)
  unfolding select_first
  select_first-Elem test [] h = ground arith
  select_first-Elem test (s ∷ rows) {r} h = elim (Bool-cases (test s)) [
    | inl hit ↦ (ground arith, ground arith)
    | inr miss ↦
        let found = select_first-Elem test rows {r = r} (ground arith) in (inr found.0, found.1)
  ]

  pub select_first-delete_where :
      (find test : R → Bool) (rows : List R)
      → ((r : R) → find r ≡ true → test r ≡ false)
      → select_first find (delete_where test rows) ≡ select_first find rows
  unfolding select_first delete_where
  select_first-delete_where find test [] apart = ground arith
  select_first-delete_where find test (r ∷ rows) apart =
      ground (arith, apart r, select_first-delete_where find test rows apart)

  pub select_first-delete_where_self :
      (test : R → Bool) (rows : List R) → select_first test (delete_where test rows) ≡ none
  unfolding select_first delete_where
  select_first-delete_where_self test [] = ground arith
  select_first-delete_where_self test (r ∷ rows) =
      ground (arith, select_first-delete_where_self test rows)

  pub select_first-append_miss :
      (test : R → Bool) (rows : List R) (r : R)
      → test r ≡ false
      → select_first test (rows ++ r ∷ []) ≡ select_first test rows
  unfolding select_first
  select_first-append_miss test [] r h = ground arith
  select_first-append_miss test (s ∷ rows) r h =
      ground (arith, select_first-append_miss test rows r h)

  pub select_first-append_hit :
      (test : R → Bool) (rows : List R) (r : R)
      → test r ≡ true
      → any test rows ≡ false
      → select_first test (rows ++ r ∷ []) ≡ some r
  unfolding select_first
  select_first-append_hit test [] r h none_before = ground arith
  select_first-append_hit test (s ∷ rows) r h none_before =
      ground (arith, select_first-append_hit test rows r h)

  pub select_first-any :
      (test : R → Bool) (rows : List R)
      → any test rows ≡ true
      → (r : R) × (select_first test rows ≡ some r)
  unfolding select_first
  select_first-any test [] h = absurd (ground arith)
  select_first-any test (s ∷ rows) h = elim (Bool-cases (test s)) [
    | inl hit ↦ (s, ground arith)
    | inr miss ↦ let (r, e) = select_first-any test rows (ground arith) in (r, ground arith)
  ]

  pub select_first-none :
      (test : R → Bool) (rows : List R) → any test rows ≡ false → select_first test rows ≡ none
  unfolding select_first
  select_first-none test [] h = ground arith
  select_first-none test (s ∷ rows) h = ground (arith, select_first-none test rows)

  pub delete_where_idem :
      (test : R → Bool) (rows : List R)
      → delete_where test (delete_where test rows) ≡ delete_where test rows
  unfolding delete_where
  delete_where_idem test [] = ground arith
  delete_where_idem test (r ∷ rows) = ground (arith, delete_where_idem test rows)
