-- ===== src/Tests/Visible.antt =====
-- Witnesses of the visible status: two changes wait for a bridge that was reached four days ago.
use Prim.Native.String.{◌++◌}
use autoreas_mobile.Prelude.{ℕ, zero, suc, ◌-◌, String, ◌≡◌, true, some}
use autoreas_mobile.Connection.{of_store, unreachable}
use autoreas_mobile.Visible.{
  SyncVisibleStatusFacts, format_last_sync_recency, derive_visible_sync_status,
}
use autoreas_mobile.Visible.Recency.{recency_of, recency_is_in_its_largest_unit}
use autoreas_mobile.Visible.Tone.{IsToneLadder, derive_visible_sync_status-IsToneLadder}

-- A number in strokes.
abbrev digits : ℕ → String
digits zero = ""
digits (suc n) = "I" ++ digits n

abbrev facts : SyncVisibleStatusFacts
facts = record {
  connection_status = of_store unreachable;
  is_bridge_configured = some true;
  is_device_online = some true;
  last_sync_at = some 1000;
  pending_ops_count = 2;
}

derive_visible_sync_status-IsToneLadder_example :
    IsToneLadder facts 345601000 (derive_visible_sync_status digits facts 345601000).tone
derive_visible_sync_status-IsToneLadder_example =
    derive_visible_sync_status-IsToneLadder digits facts 345601000

recency_is_in_its_largest_unit_example :
    format_last_sync_recency digits (some 1000) 345601000
    ≡ some (recency_of digits (345601000 - 1000))
recency_is_in_its_largest_unit_example = recency_is_in_its_largest_unit digits 1000 345601000
