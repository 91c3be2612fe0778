-- ===== src/Flush/Demands.antt =====
-- A run serves the strongest heal that one of its reasons demands (`sync-flush.helpers.ts`).
use autoreas_mobile.Prelude.{
  ℕ, ◌≤◌, ◌≡◌, ◌⊎◌, refl, List, [], ◌∷◌, ◌∙◌, ltb, arith, Elem, inl, inr, Bool-cases,
}
use autoreas_mobile.Flush.{
  SyncFlushReason, SnapshotHealDemand, never, snapshot_heal_demand_rank, snapshot_heal_flush_demand,
  stronger, merge_demands_from, merge_snapshot_heal_demands, sync_flush_reason_source, Reasons,
  all_reasons, build_sync_flush_request,
}

-- `a` demands no more than `b`.
abbrev pub IsWeaker : SnapshotHealDemand → SnapshotHealDemand → Type 0
IsWeaker a b = snapshot_heal_demand_rank a ≤ snapshot_heal_demand_rank b

left-IsWeaker : (a b : SnapshotHealDemand) → IsWeaker a (stronger a b)
left-IsWeaker a b =
    elim (Bool-cases (ltb (snapshot_heal_demand_rank a) (snapshot_heal_demand_rank b))) [
      | inl less ↦ rw less (ground (arith, less))
      | inr more ↦ rw more (omega arith)
    ]

right-IsWeaker : (a b : SnapshotHealDemand) → IsWeaker b (stronger a b)
right-IsWeaker a b =
    elim (Bool-cases (ltb (snapshot_heal_demand_rank a) (snapshot_heal_demand_rank b))) [
      | inl less ↦ rw less (omega arith)
      | inr more ↦ rw more (ground (arith, more))
    ]

stronger-cases : (a b : SnapshotHealDemand) → (stronger a b ≡ a) ⊎ (stronger a b ≡ b)
stronger-cases a b =
    elim (Bool-cases (ltb (snapshot_heal_demand_rank a) (snapshot_heal_demand_rank b))) [
      | inl less ↦ inr (rw less refl)
      | inr more ↦ inl (rw more refl)
    ]

start-IsWeaker :
    (strongest : SnapshotHealDemand) (reasons : List SyncFlushReason)
    → IsWeaker strongest (merge_demands_from strongest reasons)
unfolding merge_demands_from
start-IsWeaker strongest [] = omega arith
start-IsWeaker strongest (reason ∷ reasons) = omega (
  arith,
  left-IsWeaker strongest (snapshot_heal_flush_demand reason),
  start-IsWeaker (stronger strongest (snapshot_heal_flush_demand reason)) reasons,
)

each-IsWeaker :
    (strongest : SnapshotHealDemand) (reasons : List SyncFlushReason) (reason : SyncFlushReason)
    → Elem reason reasons
    → IsWeaker (snapshot_heal_flush_demand reason) (merge_demands_from strongest reasons)
unfolding merge_demands_from
each-IsWeaker strongest [] reason m = absurd m
each-IsWeaker strongest (other ∷ reasons) reason (inr m) =
    each-IsWeaker (stronger strongest (snapshot_heal_flush_demand other)) reasons reason m
each-IsWeaker strongest (other ∷ reasons) reason (inl e) = rw e (
    omega (
      arith,
      right-IsWeaker strongest (snapshot_heal_flush_demand other),
      start-IsWeaker (stronger strongest (snapshot_heal_flush_demand other)) reasons,
    ))

demanded-by :
    (strongest : SnapshotHealDemand) (reasons : List SyncFlushReason)
    → (merge_demands_from strongest reasons ≡ strongest)
      ⊎ ((reason : SyncFlushReason) × Elem reason reasons
          × (merge_demands_from strongest reasons ≡ snapshot_heal_flush_demand reason))
unfolding merge_demands_from
demanded-by strongest [] = inl refl
demanded-by strongest (reason ∷ reasons) =
    let demand = snapshot_heal_flush_demand reason in
    elim (demanded-by (stronger strongest demand) reasons) [
      | inr (other, m, e) ↦ inr (other, inr m, e)
      | inl e ↦ elim (stronger-cases strongest demand) [
        | inl kept ↦ inl (e ∙ kept)
        | inr replaced ↦ inr (reason, inl refl, e ∙ replaced)
      ]
    ]

-- A run heals the snapshot as strongly as each reason that it serves demands, and no more than one
-- of them does, unless it heals never; its source is that of its first reason.
pub strongest_demand_is_served :
    (database : ℕ) (reasons : Reasons)
    → ((reason : SyncFlushReason)
        → Elem reason (all_reasons reasons)
        → IsWeaker
            (snapshot_heal_flush_demand reason)
            (build_sync_flush_request database reasons).heal_snapshot)
      × (((build_sync_flush_request database reasons).heal_snapshot ≡ never)
          ⊎ ((reason : SyncFlushReason) × Elem reason (all_reasons reasons)
              × ((build_sync_flush_request database reasons).heal_snapshot
                  ≡ snapshot_heal_flush_demand reason)))
      × ((build_sync_flush_request database reasons).source
          ≡ sync_flush_reason_source reasons.first)
unfolding build_sync_flush_request merge_snapshot_heal_demands
strongest_demand_is_served database reasons =
    (each-IsWeaker never (all_reasons reasons), demanded-by never (all_reasons reasons), refl)
