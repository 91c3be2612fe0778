-- ===== src/Drain/Entries.antt =====
-- The two lists that a pass fills (`remote-change-drain.helpers.ts`), and the entries that it reads.
use autoreas_mobile.Prelude.{
  ℕ, ◌+◌, ◌≡◌, refl, sym, ap, ◌⊎◌, inl, inr, Bool, true, false, Option, none, some, List, [], ◌∷◌,
  map, Elem, includes, arith, Bool-cases, Elem-append_left, Elem-append_right, append-Elem,
  Elem-map, map-Elem, nat_eq,
}
use autoreas_mobile.Sql.{}
use autoreas_mobile.Sql.Order.{Elem-sort_by, sort_by-Elem}
use autoreas_mobile.Database.{RemoteAnimeChange, PendingRemoteChange, Database}
use autoreas_mobile.Merge.Apply.{MergeContext}
use autoreas_mobile.Drain.{
  MergePassEntry, staged_entry, incoming_entry, pass_entries, is_kept_deferred, add_consumed,
  add_kept, consumed_staging_ids, kept_incoming, staged_rows, load_pending_remote_changes,
}

add_consumed_inv :
    (id : ℕ) (staged : Option ℕ) (kept : Bool) (ids : List ℕ)
    → includes (add_consumed staged kept ids) id ≡ true
    → ((staged ≡ some id) × (kept ≡ false)) ⊎ (includes ids id ≡ true)
add_consumed_inv id none kept ids h = inr h
add_consumed_inv id (some n) true ids h = inr h
add_consumed_inv id (some n) false ids h = elim (Bool-cases (nat_eq n id)) [
  | inl same ↦ inl (ground arith, refl)
  | inr other ↦ inr (ground arith)
]

add_kept_inv :
    (change c : RemoteAnimeChange) (staged : Option ℕ) (kept : Bool)
    (changes : List RemoteAnimeChange)
    → Elem change (add_kept staged kept c changes)
    → ((staged ≡ none) × (kept ≡ true) × (change ≡ c)) ⊎ Elem change changes
add_kept_inv change c none true changes (inl e) = inl (refl, refl, e)
add_kept_inv change c none true changes (inr m) = inr m
add_kept_inv change c none false changes m = inr m
add_kept_inv change c (some n) _ changes m = inr m

module _ (all : List MergePassEntry) (ctx : MergeContext) where
  pub includes-consumed :
      (e : MergePassEntry) (id : ℕ) (entries : List MergePassEntry)
      → Elem e entries
      → e.staging_id ≡ some id
      → is_kept_deferred e all ctx ≡ false
      → includes (consumed_staging_ids all ctx entries) id ≡ true
  unfolding consumed_staging_ids
  includes-consumed e id [] m staged dropped = absurd m
  includes-consumed e id (x ∷ entries) (inl same) staged dropped = ground arith
  includes-consumed e id (x ∷ entries) (inr m) staged dropped =
      ground (arith, includes-consumed e id entries m staged dropped)

  pub consumed-includes :
      (id : ℕ) (entries : List MergePassEntry)
      → includes (consumed_staging_ids all ctx entries) id ≡ true
      → (e : MergePassEntry) × Elem e entries
        × (e.staging_id ≡ some id)
        × (is_kept_deferred e all ctx ≡ false)
  unfolding consumed_staging_ids
  consumed-includes id [] h = absurd (ground arith)
  consumed-includes id (x ∷ entries) h =
      elim (add_consumed_inv id x.staging_id (is_kept_deferred x all ctx)
        (consumed_staging_ids all ctx entries) h) [
          | inl (staged, dropped) ↦ (x, inl refl, staged, dropped)
          | inr later ↦
              let (e, m, staged, dropped) = consumed-includes id entries later in
              (e, inr m, staged, dropped)
        ]

  pub Elem-kept_incoming :
      (e : MergePassEntry) (entries : List MergePassEntry)
      → Elem e entries
      → e.staging_id ≡ none
      → is_kept_deferred e all ctx ≡ true
      → Elem e.change (kept_incoming all ctx entries)
  unfolding kept_incoming
  Elem-kept_incoming e [] m incoming kept = absurd m
  Elem-kept_incoming e (x ∷ entries) (inl same) incoming kept = ground arith
  Elem-kept_incoming e (x ∷ entries) (inr m) incoming kept =
      ground (arith, Elem-kept_incoming e entries m incoming kept)

  pub kept_incoming-Elem :
      (change : RemoteAnimeChange) (entries : List MergePassEntry)
      → Elem change (kept_incoming all ctx entries)
      → (e : MergePassEntry) × Elem e entries
        × (e.staging_id ≡ none)
        × (is_kept_deferred e all ctx ≡ true)
        × (change ≡ e.change)
  unfolding kept_incoming
  kept_incoming-Elem change [] m = absurd m
  kept_incoming-Elem change (x ∷ entries) m =
      elim (add_kept_inv change x.change x.staging_id (is_kept_deferred x all ctx)
        (kept_incoming all ctx entries) m) [
          | inl (incoming, kept, e) ↦ (x, inl refl, incoming, kept, e)
          | inr later ↦
              let (e, n, incoming, kept, same) = kept_incoming-Elem change entries later in
              (e, inr n, incoming, kept, same)
        ]

pub Elem-staged_rows :
    (id created_at : ℕ) (change : RemoteAnimeChange) (changes : List RemoteAnimeChange)
    → Elem change changes
    → (row : PendingRemoteChange) × Elem row (staged_rows id created_at changes)
      × (row.change ≡ change)
unfolding staged_rows
Elem-staged_rows id created_at change [] m = absurd m
Elem-staged_rows id created_at change (c ∷ changes) (inl e) =
    (record { staging_id = id; change = c; created_at = created_at }, inl refl, sym e)
Elem-staged_rows id created_at change (c ∷ changes) (inr m) =
    let (row, n, e) = Elem-staged_rows (id + 1) created_at change changes m in (row, inr n, e)

pub staged_rows-Elem :
    (id created_at : ℕ) (row : PendingRemoteChange) (changes : List RemoteAnimeChange)
    → Elem row (staged_rows id created_at changes)
    → Elem row.change changes
unfolding staged_rows
staged_rows-Elem id created_at row [] m = m
staged_rows-Elem id created_at row (c ∷ changes) (inl e) =
    inl (ap (λ (r : PendingRemoteChange). r.change) e)
staged_rows-Elem id created_at row (c ∷ changes) (inr m) =
    inr (staged_rows-Elem (id + 1) created_at row changes m)

-- The entries of a pass are the staged rows and the incoming changes.
module _ (db : Database) (incoming : List RemoteAnimeChange) where
  abbrev pub entries_of : List MergePassEntry
  entries_of = pass_entries (load_pending_remote_changes db) incoming

  pub Elem-entries_staged :
      (row : PendingRemoteChange)
      → Elem row db.pending_remote_changes
      → Elem (staged_entry row) entries_of
  unfolding pass_entries load_pending_remote_changes
  Elem-entries_staged row m = Elem-sort_by _ (staged_entry row) _ (
      Elem-append_left (staged_entry row) _ _
        (Elem-map staged_entry row _ (Elem-sort_by _ row db.pending_remote_changes m)))

  pub Elem-entries_incoming :
      (change : RemoteAnimeChange) → Elem change incoming → Elem (incoming_entry change) entries_of
  unfolding pass_entries
  Elem-entries_incoming change m = Elem-sort_by _ (incoming_entry change) _ (
      Elem-append_right (incoming_entry change) (map staged_entry (load_pending_remote_changes db))
        _ (Elem-map incoming_entry change incoming m))

  pub entries-Elem :
      (e : MergePassEntry)
      → Elem e entries_of
      → ((row : PendingRemoteChange) × Elem row db.pending_remote_changes × (e ≡ staged_entry row))
        ⊎ ((change : RemoteAnimeChange) × Elem change incoming × (e ≡ incoming_entry change))
  unfolding pass_entries load_pending_remote_changes
  entries-Elem e m = elim (append-Elem e _ _ (sort_by-Elem _ e _ m)) [
    | inl s ↦
        let (row, n, same) = map-Elem staged_entry e _ s in
        inl (row, sort_by-Elem _ row db.pending_remote_changes n, same)
    | inr i ↦ inr (map-Elem incoming_entry e incoming i)
  ]
