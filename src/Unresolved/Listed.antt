-- ===== src/Unresolved/Listed.antt =====
-- Which anime keys are listed as unresolved (`unresolved-key.helpers.ts`).
use autoreas_mobile.Prelude.{
  String, ◌≡◌, refl, ap, sym, ◌∙◌, Bool, true, false, ◌&&◌, ◌||◌, Option, List, [], ◌∷◌, ◌++◌, ◌==◌,
  map, any, filterb, leb, arith, eq_iff, Bool-cases, inl, inr,
}
use autoreas_mobile.Sql.Order.{sort_by, insert_sorted}
use autoreas_mobile.Database.{OperationLogRow}
use autoreas_mobile.Reconcile.Request.{JsonObject, JsonValue}
use autoreas_mobile.Unresolved.{
  UnresolvedKey, UnresolvedOperationRow, anime_key, same_key, ref_of, add_to_group, group_by, by_id,
  operation_row, is_given_up_edit, operation_key, read_unresolved_anime_keys, rating_group_key,
  read_unresolved_rating_keys, list_unresolved_keys, UnresolvedRatingRow,
}

abbrev pub is_key_of : String → UnresolvedKey → Bool
is_key_of id key = same_key (ref_of key) (anime_key id)

abbrev pub is_given_up_of : String → OperationLogRow → Bool
is_given_up_of id row = (row.anime_id == id) && is_given_up_edit row

or_false : (b : Bool) → (b || false) ≡ b
or_false true = refl
or_false false = refl

any-append :
    {A : Type 0} (p : A → Bool) (xs ys : List A) → any p (xs ++ ys) ≡ (any p xs || any p ys)
any-append p [] ys = refl
any-append p (x ∷ xs) ys = ground (arith, any-append p xs ys)

any-sort_by :
    {A : Type 0} (le : A → A → Bool) (p : A → Bool) (xs : List A) → any p (sort_by le xs) ≡ any p xs
unfolding sort_by
any-sort_by le p [] = refl
any-sort_by le p (x ∷ xs) = inserted x (sort_by le xs) ∙ ap (λ b. p x || b) (any-sort_by le p xs)
  where
    inserted : (y : _) (ys : List _) → any p (insert_sorted le y ys) ≡ (p y || any p ys)
    inserted y [] = refl
    inserted y (z ∷ ys) = ground (arith, inserted y ys)

any-filterb :
    {A : Type 0} (p q : A → Bool) (xs : List A) → any p (filterb q xs) ≡ any (λ x. p x && q x) xs
any-filterb p q [] = refl
any-filterb p q (x ∷ xs) = ground (arith, any-filterb p q xs)

module _ (id : String) where
  abbrev is_group : String × List UnresolvedOperationRow → Bool
  is_group (key, rows) = key == id

  any-add_to_group :
      (key : String) (row : UnresolvedOperationRow)
      (groups : List (String × List UnresolvedOperationRow))
      → any is_group (add_to_group (λ a b. a == b) key row groups)
        ≡ ((key == id) || any is_group groups)
  unfolding add_to_group
  any-add_to_group key row [] = refl
  any-add_to_group key row ((other, rows) ∷ groups) = elim (Bool-cases (other == key)) [
    | inl same ↦ rw same (
        let same_id : (key == id) ≡ (other == id) =
          ap (λ k. k == id) (sym ((eq_iff other key).0 same)) in
        ground (arith, same_id))
    | inr differs ↦ rw differs (ground (arith, any-add_to_group key row groups))
  ]

  any-group_by :
      (rows : List OperationLogRow) (groups : List (String × List UnresolvedOperationRow))
      → any is_group
          (group_by (λ a b. a == b) (λ (r : OperationLogRow). r.anime_id) operation_row rows groups)
        ≡ (any is_group groups || any (λ (r : OperationLogRow). r.anime_id == id) rows)
  unfolding group_by
  any-group_by [] groups = ground arith
  any-group_by (row ∷ rows) groups =
      any-group_by rows _ ∙ ground (arith, any-add_to_group row.anime_id (operation_row row) groups)

  any-operation_key :
      (groups : List (String × List UnresolvedOperationRow))
      → any (is_key_of id) (map operation_key groups) ≡ any is_group groups
  unfolding same_key
  any-operation_key [] = refl
  any-operation_key ((key, rows) ∷ groups) = ground (arith, any-operation_key groups)

  any-rating_key :
      (groups : List ((String × String) × List UnresolvedRatingRow))
      → any (is_key_of id) (map rating_group_key groups) ≡ false
  unfolding same_key
  any-rating_key [] = refl
  any-rating_key (((season, key), rows) ∷ groups) = any-rating_key groups

  any-read_unresolved_anime_keys :
      (log : List OperationLogRow)
      → any (is_key_of id) (read_unresolved_anime_keys log) ≡ any (is_given_up_of id) log
  unfolding read_unresolved_anime_keys by_id
  any-read_unresolved_anime_keys log =
      any-operation_key _
      ∙ any-group_by (by_id (filterb is_given_up_edit log)) []
      ∙ any-sort_by (λ (a b : OperationLogRow). leb a.id b.id)
          (λ (r : OperationLogRow). r.anime_id == id) (filterb is_given_up_edit log)
      ∙ any-filterb (λ (r : OperationLogRow). r.anime_id == id) is_given_up_edit log

  module _ (parse : String → Option JsonObject) (text_of : Option JsonValue → String)
      (log : List OperationLogRow) where
    any-read_unresolved_rating_keys :
        any (is_key_of id) (read_unresolved_rating_keys parse text_of log) ≡ false
    unfolding read_unresolved_rating_keys
    any-read_unresolved_rating_keys = any-rating_key _

    -- The key of an anime is listed exactly while the outbox has a given-up edit of it.
    pub key_is_listed :
        any (is_key_of id) (list_unresolved_keys parse text_of log) ≡ any (is_given_up_of id) log
    unfolding list_unresolved_keys
    key_is_listed =
        any-append (is_key_of id) (read_unresolved_anime_keys log)
          (read_unresolved_rating_keys parse text_of log)
        ∙ ap (λ b. any (is_key_of id) (read_unresolved_anime_keys log) || b)
            any-read_unresolved_rating_keys
        ∙ or_false (any (is_key_of id) (read_unresolved_anime_keys log))
        ∙ any-read_unresolved_anime_keys log
