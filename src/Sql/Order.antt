-- ===== src/Sql/Order.antt =====
-- ORDER BY, and JavaScript's `sort`, which is stable: an insertion sort with a Boolean order.
use autoreas_mobile.Prelude.{
  ◌≡◌, inl, inr, Bool, true, List, [], ◌∷◌, length, All, Elem, if◌then◌else◌, arith,
}

module _ {R : Type 0} (le : R → R → Bool) where
  unfoldable pub insert_sorted : R → List R → List R
  insert_sorted r [] = r ∷ []
  insert_sorted r (s ∷ rows) = if le r s then r ∷ s ∷ rows else s ∷ insert_sorted r rows

  unfoldable pub sort_by : List R → List R
  unfolding insert_sorted
  sort_by [] = []
  sort_by (r ∷ rows) = insert_sorted r (sort_by rows)

  abbrev pub IsSorted : List R → Type 0
  IsSorted [] = Unit
  IsSorted (r ∷ rows) = All (λ s. le r s ≡ true) rows × IsSorted rows

  Elem-insert_sorted : (a r : R) (rows : List R) → Elem a (r ∷ rows) → Elem a (insert_sorted r rows)
  unfolding insert_sorted
  Elem-insert_sorted a r [] m = m
  Elem-insert_sorted a r (s ∷ rows) (inl e) = ground (arith, Elem-insert_sorted a r rows (inl e))
  Elem-insert_sorted a r (s ∷ rows) (inr (inl e)) = ground arith
  Elem-insert_sorted a r (s ∷ rows) (inr (inr m)) =
      ground (arith, Elem-insert_sorted a r rows (inr m))

  insert_sorted-Elem : (a r : R) (rows : List R) → Elem a (insert_sorted r rows) → Elem a (r ∷ rows)
  unfolding insert_sorted
  insert_sorted-Elem a r [] m = m
  insert_sorted-Elem a r (s ∷ rows) m = grind (arith, insert_sorted-Elem a r rows)

  pub Elem-sort_by : (a : R) (rows : List R) → Elem a rows → Elem a (sort_by rows)
  unfolding sort_by
  Elem-sort_by a [] m = m
  Elem-sort_by a (r ∷ rows) (inl e) = Elem-insert_sorted a r (sort_by rows) (inl e)
  Elem-sort_by a (r ∷ rows) (inr m) =
      Elem-insert_sorted a r (sort_by rows) (inr (Elem-sort_by a rows m))

  pub sort_by-Elem : (a : R) (rows : List R) → Elem a (sort_by rows) → Elem a rows
  unfolding sort_by
  sort_by-Elem a [] m = m
  sort_by-Elem a (r ∷ rows) m = elim (insert_sorted-Elem a r (sort_by rows) m) [
    | inl e ↦ inl e
    | inr n ↦ inr (sort_by-Elem a rows n)
  ]

  length-insert_sorted : (r : R) (rows : List R) → length (insert_sorted r rows) ≡ length (r ∷ rows)
  unfolding insert_sorted
  length-insert_sorted r [] = ground arith
  length-insert_sorted r (s ∷ rows) = ground (arith, length-insert_sorted r rows)

  pub length-sort_by : (rows : List R) → length (sort_by rows) ≡ length rows
  unfolding sort_by
  length-sort_by [] = ground arith
  length-sort_by (r ∷ rows) =
      ground (arith, length-insert_sorted r (sort_by rows), length-sort_by rows)
