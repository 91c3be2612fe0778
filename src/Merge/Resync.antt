-- ===== src/Merge/Resync.antt =====
-- The foreground full resync: `deriveChangedFields` against the local row, then the partial write
-- of exactly those fields (`field-merge.helpers.ts`).
use autoreas_mobile.Prelude.{
  String, ◌≡◌, refl, true, false, ◌&&◌, Option, none, some, List, [], ◌∷◌, contains, arith, eq_iff,
  eq_refl, ap, fun_ext, ◌∙◌,
}
use autoreas_mobile.Database.{Anime, AnimeRow, JsonText, Value, null, num, text, value_eq}
use autoreas_mobile.Database.Tables.{set_columns, or_cell}
use autoreas_mobile.Database.Upsert.{opt_text}
use autoreas_mobile.Merge.Fields.{
  map_coupled_columns, map_known_field, is_changed, changed_among, derive_changed_fields,
  build_partial_update, mergeable_fields,
}
use autoreas_mobile.Merge.Columns.{mapped, column-mapped}

value_eq-eq : (v w : Value) → value_eq v w ≡ true → v ≡ w
unfolding value_eq
value_eq-eq null null h = refl
value_eq-eq (num a) (num b) h = ground arith
value_eq-eq (text a) (text b) h = ground (arith, eq_iff a b)
value_eq-eq _ _ h = ground arith

value_eq_refl : (v : Value) → value_eq v v ≡ true
unfolding value_eq
value_eq_refl null = refl
value_eq_refl (num a) = ground arith
value_eq_refl (text a) = eq_refl a

module _ (json : JsonText) (snapshot : Anime) where
  contains-changed_among :
      (cell : String → Value) (fields : List String) (f : String)
      → contains (changed_among json fields snapshot cell) f
        ≡ (contains fields f && is_changed json snapshot cell f (map_known_field json f snapshot))
  unfolding changed_among
  contains-changed_among cell [] f = refl
  contains-changed_among cell (g ∷ fields) f =
      ground (arith, eq_iff g f, contains-changed_among cell fields f)

  changed_among-eq-nil :
      (cell : String → Value) (fields : List String)
      → ((f : String)
          → contains fields f ≡ true
          → is_changed json snapshot cell f (map_known_field json f snapshot) ≡ false)
      → changed_among json fields snapshot cell ≡ []
  unfolding changed_among
  changed_among-eq-nil cell [] h = refl
  changed_among-eq-nil cell (g ∷ fields) h =
      ground (arith, eq_refl g, h g, changed_among-eq-nil cell fields (λ f m. h f (ground arith)))

  known_folder_relative : map_known_field json "folderRelative" snapshot ≡ none
  unfolding map_known_field
  known_folder_relative = refl

  known_carpeta : map_known_field json "carpeta" snapshot ≡ some (opt_text snapshot.carpeta)
  unfolding map_known_field
  known_carpeta = refl

  module _ (fields : List String) (cell : String → Value) where
    -- The columns after the write of the fields that differ.
    abbrev rewritten : String → Value
    rewritten k =
        or_cell (mapped json (changed_among json fields snapshot cell) snapshot k) (cell k)

    unchanged_value :
        (f : String) (value : Value)
        → is_changed json snapshot cell f (some value) ≡ false
        → cell f ≡ value
    unfolding is_changed
    unchanged_value f value same = ground (arith, value_eq-eq value (cell f))

    unchanged_folder :
        (value : Value)
        → is_changed json snapshot cell "carpeta" (some value) ≡ false
        → cell "folderRelative" ≡ opt_text snapshot.folder_relative
    unfolding is_changed map_coupled_columns
    unchanged_folder value same =
        ground (arith, value_eq-eq (opt_text snapshot.folder_relative) (cell "folderRelative"))

    -- A column that the derivation passed over already had the snapshot's value.
    rewritten_known :
        (f : String) (value : Value)
        → contains fields f ≡ true
        → map_known_field json f snapshot ≡ some value
        → rewritten f ≡ value
    rewritten_known f value m known = ground (
      arith,
      eq_iff f "folderRelative",
      known_folder_relative,
      contains-changed_among cell fields f,
      unchanged_value f value,
    )

    rewritten_folder :
        contains fields "carpeta" ≡ true
        → rewritten "folderRelative" ≡ opt_text snapshot.folder_relative
    rewritten_folder m = ground (
      arith,
      known_carpeta,
      contains-changed_among cell fields "carpeta",
      unchanged_folder (opt_text snapshot.carpeta),
    )

    -- With its own value and its folder path in place, a field no longer differs.
    settled_field :
        (f : String) (value : Value) (after : String → Value)
        → after f ≡ value
        → (f ≡ "carpeta" → after "folderRelative" ≡ opt_text snapshot.folder_relative)
        → is_changed json snapshot after f (some value) ≡ false
    unfolding is_changed map_coupled_columns
    settled_field f value after own folder =
        rw (own, value_eq_refl value)
          (ground (arith, eq_iff f "carpeta", value_eq_refl (opt_text snapshot.folder_relative)))

    rewritten_settled :
        (f : String) (o : Option Value)
        → contains fields f ≡ true
        → map_known_field json f snapshot ≡ o
        → is_changed json snapshot rewritten f o ≡ false
    unfolding is_changed
    rewritten_settled f none m known = refl
    rewritten_settled f (some value) m known =
        settled_field f value rewritten (rewritten_known f value m known)
          (λ e. rewritten_folder (rw e at m))

    changed_among-rewritten : changed_among json fields snapshot rewritten ≡ []
    changed_among-rewritten =
        changed_among-eq-nil rewritten fields
          (λ f m. rewritten_settled f (map_known_field json f snapshot) m refl)

-- The row after a resync against a snapshot.
abbrev pub resync_row : JsonText → Anime → AnimeRow → AnimeRow
resync_row json snapshot row =
    set_columns
      (build_partial_update json (derive_changed_fields json snapshot row.cell) snapshot).columns
      row

module _ (json : JsonText) (snapshot : Anime) (row : AnimeRow) where
  cells-resync_row :
      (resync_row json snapshot row).cell ≡ rewritten json snapshot mergeable_fields row.cell
  unfolding set_columns derive_changed_fields
  cells-resync_row = fun_ext λ k.
      ap (λ o. or_cell o (row.cell k))
        (column-mapped json snapshot (changed_among json mergeable_fields snapshot row.cell) k)

  -- After a full resync every mergeable column that the snapshot maps holds the snapshot's value.
  pub resync_values :
      (field : String) (value : Value)
      → contains mergeable_fields field ≡ true
      → map_known_field json field snapshot ≡ some value
      → (resync_row json snapshot row).cell field ≡ value
  resync_values field value m known =
      ap (λ (cell : String → Value). cell field) cells-resync_row
      ∙ rewritten_known json snapshot mergeable_fields row.cell field value m known

  -- So does the folder path.
  pub resync_folder :
      (resync_row json snapshot row).cell "folderRelative" ≡ opt_text snapshot.folder_relative
  resync_folder =
      ap (λ (cell : String → Value). cell "folderRelative") cells-resync_row
      ∙ rewritten_folder json snapshot mergeable_fields row.cell refl

  -- A full resync reaches a fixed point: derived again from the row that it wrote, no field differs
  -- from the snapshot, the folder path that goes along with `carpeta` included.
  pub resync_settles : derive_changed_fields json snapshot (resync_row json snapshot row).cell ≡ []
  unfolding derive_changed_fields
  resync_settles =
      ap (λ (cell : String → Value). changed_among json mergeable_fields snapshot cell)
        cells-resync_row
      ∙ changed_among-rewritten json snapshot mergeable_fields row.cell
