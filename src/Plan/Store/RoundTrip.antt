-- ===== src/Plan/Store/RoundTrip.antt =====
-- What is saved is what is loaded.
use go_agent.Prelude.{
  String, Bool, true, false, some, ok, first_error, key_eq, string_key, ◌≡◌, refl, sym, ◌∙◌, ap,
  inl, inr, Option-cases, if◌then◌else◌,
}
use go_agent.Prelude.Dict.{get, get_or, put, get-put, get_or-put}
use go_agent.Control.{Time}
use go_agent.Plan.Store.Records.{PlanStateSnapshot, start_key}
use go_agent.Plan.Store.Codec.{Codec}
use go_agent.Plan.Store.Memory.{
  normalize_memory_plan_state_snapshot, may_save, may_claim, write_plan_state,
  save_plan_state_locked, save_plan_state, load_plan_state, with_status,
}
use go_agent.Plan.Store.State.{MemoryPlanStore, zero_status}
use go_agent.Plan.Store.Writes.{lift_ok, failed_ok}

-- The snapshots after a write: the new one under its plan, and the others as before.
load-write :
    (snapshot : PlanStateSnapshot) (s : MemoryPlanStore) (id : String)
    → load_plan_state id (write_plan_state snapshot s)
      ≡ (if key_eq snapshot.spec.plan_id id then some snapshot else load_plan_state id s)
unfolding load_plan_state write_plan_state
load-write snapshot s id =
    let own = snapshot.spec.plan_id in
    let spec = get-put own id snapshot.spec s.specs in
    let status = get_or-put zero_status own id snapshot.status s.statuses in
    ap (λ o. with_status o (get_or zero_status id (put own snapshot.status s.statuses))) spec
    ∙ ap (with_status (if key_eq own id then some snapshot.spec else get id s.specs)) status
    ∙ pick (key_eq own id)
  where
    pick :
        (b : Bool)
        → with_status
            (if b then some snapshot.spec else get id s.specs)
            (if b then snapshot.status else get_or zero_status id s.statuses)
          ≡ (if b then some snapshot else load_plan_state id s)
    pick true = refl
    pick false = refl

module _ (codec : Codec) where
  pub save_locked_ok :
      (snapshot : PlanStateSnapshot) (allow_create : Bool) (s : MemoryPlanStore)
      {t : MemoryPlanStore}
      → save_plan_state_locked codec snapshot allow_create s ≡ (ok tt, t)
      → t ≡ write_plan_state snapshot s
  unfolding save_plan_state_locked
  save_locked_ok snapshot allow_create s {t = t} h =
      elim (Option-cases
        (first_error (may_save codec snapshot allow_create s) (may_claim snapshot s))) [
          | inr (e, failed) ↦ absurd (failed_ok (rw (failed, save_plan_state_locked) at h))
          | inl passed ↦ sym (ap (λ r. r.1) (rw (passed, save_plan_state_locked) at h))
        ]

  -- After a save that returns no error, the plan loads as the normalized snapshot, and every other
  -- plan loads as before.
  pub load-save :
      (now : Time) (snapshot : PlanStateSnapshot) (s : MemoryPlanStore) {t : MemoryPlanStore}
      → save_plan_state codec now snapshot s ≡ (ok tt, t)
      → (normalized : PlanStateSnapshot) × (normalize_memory_plan_state_snapshot now snapshot
          ≡ ok normalized)
        × ((id : String)
            → load_plan_state id t ≡ (
                if key_eq normalized.spec.plan_id id
                then some normalized
                else load_plan_state id s))
  unfolding save_plan_state
  load-save now snapshot s {t = t} h =
      let (normalized, valid, saved) =
        lift_ok (normalize_memory_plan_state_snapshot now snapshot)
          (λ normalized. save_plan_state_locked codec normalized false) s h in
      let left = save_locked_ok normalized false s saved in
      (normalized, valid, λ id. ap (load_plan_state id) left ∙ load-write normalized s id)
