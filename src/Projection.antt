-- ===== src/Projection.antt =====
-- `src/features/animes/anime-mutation-projection.helpers.ts`: the transient overlay of accepted
-- gestures over the durable rows.
--
-- `byAnimeId` is a lookup from ids, and a listener call is counted. `record.durable === anime`
-- compares two references; that test is the parameter `is_same_object`.
pub mod Fold
pub mod Gestures
pub mod Drops
pub mod Invariant
pub mod Session
pub mod Observed
use autoreas_mobile.Prelude.{
  ℕ, suc, ◌+◌, String, Bool, true, false, not, ◌&&◌, ◌||◌, Option, none, some, List, [], ◌∷◌, ◌++◌,
  ◌==◌, length, nat_eq, is_empty, if◌then◌else◌,
}
use autoreas_mobile.Database.{Anime}
use autoreas_mobile.Mutation.Patch.{AnimeMutationProjectionFields}

pub record AnimeMutationProjectionEntry : Type 0 where
  pub id : ℕ
  pub base : AnimeMutationProjectionFields
  pub projected : AnimeMutationProjectionFields

pub record AnimeMutationProjectionRecord : Type 0 where
  pub durable : Option Anime
  pub entries : List AnimeMutationProjectionEntry

abbrev pub ProjectionState : Type 0
ProjectionState = String → Option AnimeMutationProjectionRecord

-- The module's store: the state, the entry counter, and how often the listeners were told.
pub record ProjectionStore : Type 0 where
  pub state : ProjectionState
  pub entry_id : ℕ
  pub notified : ℕ

pub record AnimeMutationProjectionFold : Type 0 where
  pub fields : AnimeMutationProjectionFields
  pub entries : List AnimeMutationProjectionEntry

unfoldable pub fields_eq : AnimeMutationProjectionFields → AnimeMutationProjectionFields → Bool
fields_eq a b = nat_eq a.nrocapvisto b.nrocapvisto && nat_eq a.estado b.estado

abbrev pub fields_of : Anime → AnimeMutationProjectionFields
fields_of anime = record { nrocapvisto = anime.nrocapvisto; estado = anime.estado }

abbrev pub push_front :
    AnimeMutationProjectionEntry → AnimeMutationProjectionFold → AnimeMutationProjectionFold
push_front entry folded = record folded { entries = entry ∷ folded.entries }

-- `foldAnimeMutationProjection`
unfoldable pub fold_projection :
    List AnimeMutationProjectionEntry → AnimeMutationProjectionFields → AnimeMutationProjectionFold
fold_projection [] from = record { fields = from; entries = [] }
fold_projection (entry ∷ entries) from =
    let skipped = fold_projection entries from in
    let applied = push_front entry (fold_projection entries entry.projected) in
    if fields_eq entry.base from then applied else skipped

-- `{ ...byAnimeId, [id]: record }`
unfoldable pub set_record :
    ProjectionState → String → AnimeMutationProjectionRecord → ProjectionState
set_record state id record' = λ j. if id == j then some record' else state j

-- `publishAnimeMutationProjection`
unfoldable pub publish : ProjectionState → ProjectionStore → ProjectionStore
publish next store = record store { state = next; notified = store.notified + 1 }

-- `recordAnimeMutationProjection`
unfoldable pub record_silently : ProjectionState → ProjectionStore → ProjectionStore
record_silently next store = record store { state = next }

-- `isAnimeMutationProjectionAbsorbed`
unfoldable pub is_absorbed : Anime → AnimeMutationProjectionFold → Bool
unfolding fields_eq
is_absorbed anime folded = fields_eq folded.fields (fields_of anime)

abbrev pub overlay : Anime → AnimeMutationProjectionFold → Anime
overlay anime folded =
    if is_empty folded.entries
    then anime
    else record anime { nrocapvisto = folded.fields.nrocapvisto; estado = folded.fields.estado }

abbrev pub overlay_record : Anime → Option AnimeMutationProjectionRecord → Anime
overlay_record anime none = anime
overlay_record anime (some r) = overlay anime (fold_projection r.entries (fields_of anime))

-- `applyAnimeMutationProjection`
unfoldable pub apply_projection : Anime → ProjectionState → Anime
unfolding fold_projection
apply_projection anime state = overlay_record anime (state anime.id)

-- The rest of `acceptAnimeMutationProjection` once there is a durable row.
abbrev pub accept_on :
    String
    → (Anime → AnimeMutationProjectionFields)
    → ProjectionStore
    → Anime
    → AnimeMutationProjectionRecord
    → Option ℕ × ProjectionStore
accept_on id build_projected store durable r =
    let base = apply_projection durable store.state in
    let entry_id = store.entry_id + 1 in
    let entry : AnimeMutationProjectionEntry = record {
      id = entry_id;
      base = fields_of base;
      projected = build_projected base;
    } in
    if fields_eq (build_projected base) (fields_of base) then (none, store) else (
      some entry_id,
      publish (set_record store.state id (record r { entries = r.entries ++ entry ∷ [] }))
          (record store { entry_id = entry_id }),
    )

abbrev pub accept_durable :
    String
    → (Anime → AnimeMutationProjectionFields)
    → ProjectionStore
    → Option Anime
    → AnimeMutationProjectionRecord
    → Option ℕ × ProjectionStore
accept_durable id build_projected store none r = (none, store)
accept_durable id build_projected store (some durable) r =
    accept_on id build_projected store durable r

abbrev pub accept_record :
    String
    → (Anime → AnimeMutationProjectionFields)
    → ProjectionStore
    → Option AnimeMutationProjectionRecord
    → Option ℕ × ProjectionStore
accept_record id build_projected store none = (none, store)
accept_record id build_projected store (some r) =
    accept_durable id build_projected store r.durable r

-- `acceptAnimeMutationProjection`
unfoldable pub accept_projection :
    String → (Anime → AnimeMutationProjectionFields) → ProjectionStore → Option ℕ × ProjectionStore
unfolding apply_projection fields_eq publish set_record
accept_projection id build_projected store = accept_record id build_projected store (store.state id)

-- `entries.slice(0, findIndex(entry.id === id))`, or nothing where no entry has the id.
unfoldable pub entries_before :
    ℕ → List AnimeMutationProjectionEntry → Option (List AnimeMutationProjectionEntry)
entries_before id [] = none
entries_before id (entry ∷ entries) =
    if nat_eq entry.id id
    then some []
    else elim (entries_before id entries) [ none ↦ none | some before ↦ some (entry ∷ before) ]

abbrev pub drop_to :
    String
    → ProjectionStore
    → AnimeMutationProjectionRecord
    → Option (List AnimeMutationProjectionEntry)
    → ProjectionStore
drop_to id store r none = store
drop_to id store r (some before) =
    publish (set_record store.state id (record r { entries = before })) store

abbrev pub drop_record :
    String → ℕ → ProjectionStore → Option AnimeMutationProjectionRecord → ProjectionStore
drop_record id entry_id store none = store
drop_record id entry_id store (some r) = drop_to id store r (entries_before entry_id r.entries)

-- `dropAnimeMutationProjection`
unfoldable pub drop_projection : String → ℕ → ProjectionStore → ProjectionStore
unfolding entries_before publish set_record
drop_projection id entry_id store = drop_record id entry_id store (store.state id)

abbrev pub entries_of : Option AnimeMutationProjectionRecord → List AnimeMutationProjectionEntry
entries_of none = []
entries_of (some r) = r.entries

-- The entries that `observeAnimeMutationDurability` keeps for one durable row.
unfoldable pub surviving_entries :
    Anime → Option AnimeMutationProjectionRecord → List AnimeMutationProjectionEntry
unfolding fold_projection is_absorbed
surviving_entries anime r =
    let folded = fold_projection (entries_of r) (fields_of anime) in
    if is_absorbed anime folded then [] else folded.entries

-- `byAnimeId`, `didRetire` and `didChange` of the loop.
pub record Observation : Type 0 where
  pub by_anime_id : ProjectionState
  pub did_retire : Bool
  pub did_change : Bool

module _ (is_same_object : Anime → Anime → Bool) where
  abbrev pub did_prune : Anime → Option AnimeMutationProjectionRecord → Bool
  did_prune anime none = false
  did_prune anime (some r) =
      not (nat_eq (length (surviving_entries anime (some r))) (length r.entries))

  abbrev pub is_same_durable : Anime → Option Anime → Bool
  is_same_durable anime none = false
  is_same_durable anime (some durable) = is_same_object durable anime

  abbrev pub is_settled : Anime → Option AnimeMutationProjectionRecord → Bool
  is_settled anime none = false
  is_settled anime (some r) = is_same_durable anime r.durable && not (did_prune anime (some r))

  -- The body of the loop of `observeAnimeMutationDurability`.
  unfoldable pub observe_one : Anime → Observation → Observation
  unfolding surviving_entries set_record
  observe_one anime o = if is_settled anime (o.by_anime_id anime.id) then o else record {
    by_anime_id = set_record o.by_anime_id anime.id (record {
      durable = some anime;
      entries = surviving_entries anime (o.by_anime_id anime.id);
    });
    did_retire = o.did_retire || did_prune anime (o.by_anime_id anime.id);
    did_change = true;
  }

  unfoldable pub observe_from : List Anime → Observation → Observation
  observe_from [] o = o
  observe_from (anime ∷ animes) o = observe_from animes (observe_one anime o)

  abbrev pub conclude : Observation → ProjectionStore → ProjectionStore
  conclude o store =
      if not o.did_change
      then store
      else if o.did_retire
      then publish o.by_anime_id store
      else record_silently o.by_anime_id store

  -- `observeAnimeMutationDurability`
  unfoldable pub observe_durability : List Anime → ProjectionStore → ProjectionStore
  unfolding observe_from observe_one publish record_silently
  observe_durability animes store =
      conclude
        (observe_from animes
          (record { by_anime_id = store.state; did_retire = false; did_change = false }))
        store

-- `resetAnimeMutationProjection`
unfoldable pub reset_projection : ProjectionStore → ProjectionStore
reset_projection store = record store { state = λ id. none; entry_id = 0 }
