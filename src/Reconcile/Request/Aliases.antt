-- ===== src/Reconcile/Request/Aliases.antt =====
-- No legacy key reaches the bridge (`normalizeLegacyAnimeUpdatePayloadAliases`).
use autoreas_mobile.Prelude.{
  String, ◌≡◌, refl, ◌∙◌, Option, none, some, [], ◌∷◌, ◌==◌, if◌then◌else◌, arith, eq_iff,
}
use autoreas_mobile.Reconcile.Request.{
  JsonValue, JsonObject, property, set_property, delete_property, copy_alias, translate_alias,
  normalize_legacy_aliases,
}

property-set_property :
    (o : JsonObject) (k j : String) (v : JsonValue)
    → property (set_property o k v) j ≡ (if k == j then some v else property o j)
unfolding property set_property
property-set_property [] k j v = ground arith
property-set_property ((i, w) ∷ o) k j v =
    ground (arith, eq_iff k j, eq_iff i k, eq_iff i j, property-set_property o k j v)

property-delete_property :
    (o : JsonObject) (k j : String)
    → property (delete_property o k) j ≡ (if k == j then none else property o j)
unfolding property delete_property
property-delete_property [] k j = ground arith
property-delete_property ((i, w) ∷ o) k j =
    ground (arith, eq_iff k j, eq_iff i k, eq_iff i j, property-delete_property o k j)

abbrev pub or_value : Option JsonValue → Option JsonValue → Option JsonValue
or_value none o = o
or_value (some v) o = some v

property-copy_alias :
    (o : JsonObject) (english j : String) (a b : Option JsonValue)
    → property o english ≡ a
    → property (copy_alias o english a b) j ≡ (if english == j then or_value a b else property o j)
property-copy_alias o english j none none h = ground (arith, eq_iff english j)
property-copy_alias o english j none (some v) h = property-set_property o english j v
property-copy_alias o english j (some v) b h = ground (arith, eq_iff english j)

property-translate_alias :
    (payload o : JsonObject) (alias english j : String)
    → property (translate_alias payload alias english o) j ≡ (
        if alias == j
        then none
        else if english == j
        then or_value (property o english) (property payload alias)
        else property o j)
unfolding translate_alias
property-translate_alias payload o alias english j = ground (
  arith,
  property-delete_property (copy_alias o english (property o english) (property payload alias))
      alias j,
  property-copy_alias o english j (property o english) (property payload alias) refl,
)

-- What the bridge is to see under a key.
abbrev pub wire_value : JsonObject → String → Option JsonValue
wire_value payload k =
    if "dias" == k
    then none
    else if "days" == k
    then or_value (property payload "days") (property payload "dias")
    else if "fechaUltCapVisto" == k
    then none
    else if "lastWatchedAt" == k
    then or_value (property payload "lastWatchedAt") (property payload "fechaUltCapVisto")
    else if "nrocapvisto" == k
    then none
    else if "episodesWatched" == k
    then or_value (property payload "episodesWatched") (property payload "nrocapvisto")
    else if "estado" == k
    then none
    else if "status" == k
    then or_value (property payload "status") (property payload "estado")
    else property payload k

module _ (payload : JsonObject) where
  -- The payload after one, two, three and all four of the aliases.
  abbrev once : JsonObject
  once = translate_alias payload "estado" "status" payload

  abbrev twice : JsonObject
  twice = translate_alias payload "nrocapvisto" "episodesWatched" once

  abbrev thrice : JsonObject
  thrice = translate_alias payload "fechaUltCapVisto" "lastWatchedAt" twice

  abbrev translated : JsonObject
  translated = translate_alias payload "dias" "days" thrice

  property-once :
      (j : String)
      → property once j ≡ (
          if ("estado" == j)
          then none
          else if ("status" == j)
          then or_value (property payload "status") (property payload "estado")
          else property payload j)
  property-once j = property-translate_alias payload payload "estado" "status" j

  property-translated : (k : String) → property translated k ≡ wire_value payload k
  property-translated k =
      let episodes : property once "episodesWatched" ≡ property payload "episodesWatched" =
        property-once "episodesWatched" in
      let watched : property twice "lastWatchedAt" ≡ property payload "lastWatchedAt" =
        property-translate_alias payload once "nrocapvisto" "episodesWatched" "lastWatchedAt"
        ∙ property-once "lastWatchedAt" in
      let days : property thrice "days" ≡ property payload "days" =
        property-translate_alias payload twice "fechaUltCapVisto" "lastWatchedAt" "days"
        ∙ property-translate_alias payload once "nrocapvisto" "episodesWatched" "days"
        ∙ property-once "days" in
      rw
        (
          property-translate_alias payload thrice "dias" "days" k,
          days,
          property-translate_alias payload twice "fechaUltCapVisto" "lastWatchedAt" k,
          watched,
          property-translate_alias payload once "nrocapvisto" "episodesWatched" k,
          episodes,
          property-once k,
        )
        refl

  -- On the wire, an update carries none of the four legacy keys; each English key carries its own
  -- value where the payload has it, and otherwise its alias's; every other key is as it was.
  pub wire_payload_is_english :
      (k : String) → property (normalize_legacy_aliases payload) k ≡ wire_value payload k
  unfolding normalize_legacy_aliases
  wire_payload_is_english k = property-translated k
