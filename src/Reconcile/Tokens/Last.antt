-- ===== src/Reconcile/Tokens/Last.antt =====
-- The stored token is the last one that the bridge confirmed (`collectConfirmedAnimeTokens`).
use autoreas_mobile.Prelude.{
  ℕ, String, ◌≡◌, refl, ap, ◌∙◌, sym, Bool, true, false, Option, none, some, List, [], ◌∷◌, ◌==◌,
  if◌then◌else◌, arith, eq_iff, Bool-cases, inl, inr, eq-of-==, ne-of-==,
}
use autoreas_mobile.Sql.{}
use autoreas_mobile.Database.{AnimeRow}
use autoreas_mobile.Database.Tables.{apply_anime_bridge_token, find_anime}
use autoreas_mobile.Database.Laws.{find-update_self, find-update_other}
use autoreas_mobile.Reconcile.Conflict.{ReconcileAppliedOperation}
use autoreas_mobile.Reconcile.Tokens.{
  ConfirmedAnimeToken, set_token, add_token, collect_from, collect_confirmed_anime_tokens,
  persist_confirmed_anime_tokens,
}

abbrev pub or_else : Option ℕ → Option ℕ → Option ℕ
or_else none o = o
or_else (some t) o = some t

abbrev pub if_applied : Bool → Option ℕ → Option ℕ
if_applied true o = o
if_applied false o = none

-- The token of the last applied operation of an anime that carries one.
abbrev pub last_token : String → List ReconcileAppliedOperation → Option ℕ
last_token id [] = none
last_token id (operation ∷ operations) =
    let later = last_token id operations in
    or_else later (
      if operation.anime_id == id then if_applied operation.applied operation.modified_at else none)

-- The token that a batch of writes leaves for an anime.
abbrev written_token : String → List ConfirmedAnimeToken → Option ℕ
written_token id [] = none
written_token id ((j, t) ∷ tokens) =
    let later = written_token id tokens in or_else later (if j == id then some t else none)

-- Every key of a token map is there once.
abbrev IsOnce : List ConfirmedAnimeToken → Type 0
IsOnce [] = Unit
IsOnce ((j, t) ∷ tokens) = (written_token j tokens ≡ none) × IsOnce tokens

written-set_token :
    (id j : String) (token : ℕ) (tokens : List ConfirmedAnimeToken)
    → IsOnce tokens
    → written_token id (set_token j token tokens)
      ≡ (if j == id then some token else written_token id tokens)
unfolding set_token
written-set_token id j token [] once = ground arith
written-set_token id j token ((k, t) ∷ tokens) once = elim (Bool-cases (k == j)) [
  | inl same ↦
      let gone : written_token j tokens ≡ none =
        ap (λ i. written_token i tokens) (sym (eq-of-== k j same)) ∙ once.0 in
      elim (Bool-cases (j == id)) [
        | inl this ↦
            let none_later : written_token id tokens ≡ none =
              ap (λ i. written_token i tokens) (sym (eq-of-== j id this)) ∙ gone in
            rw (same, this, none_later) refl
        | inr other ↦
            let k_other : (k == id) ≡ false = ap (λ i. i == id) (eq-of-== k j same) ∙ other in
            rw (same, other, k_other) refl
      ]
  | inr differs ↦ ground (
    arith,
    eq_iff j id,
    eq_iff k id,
    eq_iff k j,
    differs,
    written-set_token id j token tokens once.1,
  )
]

set_token-IsOnce :
    (j : String) (token : ℕ) (tokens : List ConfirmedAnimeToken)
    → IsOnce tokens
    → IsOnce (set_token j token tokens)
unfolding set_token
set_token-IsOnce j token [] once = (refl, tt)
set_token-IsOnce j token ((k, t) ∷ tokens) once = elim (Bool-cases (k == j)) [
  | inl same ↦ rw same (ap (λ i. written_token i tokens) (sym (eq-of-== k j same)) ∙ once.0, once.1)
  | inr differs ↦
      let apart : (j == k) ≡ false = ground (arith, eq_iff j k, eq_iff k j, differs) in
      rw differs (
        written-set_token k j token tokens once.1 ∙ rw apart once.0,
        set_token-IsOnce j token tokens once.1,
      )
]

add_token-IsOnce :
    (operation : ReconcileAppliedOperation) (o : Option ℕ) (tokens : List ConfirmedAnimeToken)
    → IsOnce tokens
    → IsOnce (add_token operation o tokens)
add_token-IsOnce operation none tokens once = once
add_token-IsOnce operation (some token) tokens once = elim (Bool-cases operation.applied) [
  | inl applied ↦ rw applied (set_token-IsOnce operation.anime_id token tokens once)
  | inr refused ↦ rw refused once
]

written-add_token :
    (id : String) (operation : ReconcileAppliedOperation) (o : Option ℕ)
    (tokens : List ConfirmedAnimeToken)
    → IsOnce tokens
    → written_token id (add_token operation o tokens)
      ≡ or_else
          (if operation.anime_id == id then if_applied operation.applied o else none)
          (written_token id tokens)
written-add_token id operation none tokens once = ground arith
written-add_token id operation (some token) tokens once =
    ground (arith, written-set_token id operation.anime_id token tokens once)

or_else_assoc : (a b c : Option ℕ) → or_else a (or_else b c) ≡ or_else (or_else a b) c
or_else_assoc none b c = refl
or_else_assoc (some t) b c = refl

or_else-none : (a : Option ℕ) → a ≡ or_else a none
or_else-none none = refl
or_else-none (some t) = refl

written-collect_from :
    (id : String) (operations : List ReconcileAppliedOperation) (tokens : List ConfirmedAnimeToken)
    → IsOnce tokens
    → written_token id (collect_from operations tokens)
      ≡ or_else (last_token id operations) (written_token id tokens)
unfolding collect_from
written-collect_from id [] tokens once = refl
written-collect_from id (operation ∷ operations) tokens once =
    let rest =
      written-collect_from id operations (add_token operation operation.modified_at tokens)
        (add_token-IsOnce operation operation.modified_at tokens once) in
    let this = written-add_token id operation operation.modified_at tokens once in
    rw (rest, this) (or_else_assoc (last_token id operations) _ (written_token id tokens))

abbrev pub with_token : Option ℕ → AnimeRow → AnimeRow
with_token token row = record row { bridge_modified_at = or_else token row.bridge_modified_at }

persisted :
    (id : String) (tokens : List ConfirmedAnimeToken) (animes : List AnimeRow) (row : AnimeRow)
    → find_anime animes id ≡ some row
    → find_anime (persist_confirmed_anime_tokens tokens animes) id
      ≡ some (with_token (written_token id tokens) row)
unfolding persist_confirmed_anime_tokens apply_anime_bridge_token
persisted id [] animes row found = found
persisted id ((j, t) ∷ tokens) animes row found = elim (Bool-cases (j == id)) [
  | inl this ↦ rw this (
      persisted id tokens _ (record row { bridge_modified_at = some t })
        (ap (λ i. find_anime (apply_anime_bridge_token i t animes) id) (eq-of-== j id this)
          ∙ find-update_self animes id (λ r. record r { bridge_modified_at = some t }) (λ r. refl)
              found)
      ∙ ap (λ o. some (record row { bridge_modified_at = o }))
          (or_else_assoc (written_token id tokens) (some t) row.bridge_modified_at))
  | inr other ↦ rw other (
      persisted id tokens _ row (
        find-update_other animes id j (λ r. record r { bridge_modified_at = some t })
          (ne-of-== j id other) (λ r. refl)
        ∙ found)
      ∙ ap (λ o. some (record row { bridge_modified_at = o }))
          (or_else_assoc (written_token id tokens) none row.bridge_modified_at))
]

-- After the tokens of an answer are stored, a stored anime has the token of the last applied
-- operation of its own that carries one, a token of 0 included, or the one that it had; nothing
-- else of its row has changed.
pub last_confirmed_token_is_stored :
    (id : String) (operations : List ReconcileAppliedOperation) (animes : List AnimeRow)
    (row : AnimeRow)
    → find_anime animes id ≡ some row
    → find_anime
        (persist_confirmed_anime_tokens (collect_confirmed_anime_tokens operations) animes)
        id
      ≡ some (with_token (last_token id operations) row)
unfolding collect_confirmed_anime_tokens
last_confirmed_token_is_stored id operations animes row found =
    persisted id (collect_from operations []) animes row found
    ∙ ap (λ o. some (with_token o row))
        (written-collect_from id operations [] tt ∙ sym (or_else-none (last_token id operations)))
