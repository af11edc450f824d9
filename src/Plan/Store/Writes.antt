-- ===== src/Plan/Store/Writes.antt =====
-- The calls of the store as steps: each write with the guards that the code has passed by then.
use go_agent.Prelude.{
  String, Bool, Option, none, some, Error, Result, ok, err, string_key, ◌≡◌, refl, ap,
}
use go_agent.Prelude.Dict.{get, put}
use go_agent.Control.{Time, RunPlanSpec, RunPlanStatus}
use go_agent.Plan.Commands.Status.{
  PlanCommandStatus, PlanCommandRef, validate_plan_command_status_transition,
}
use go_agent.Plan.Validator.Validate.{validate_run_plan_scope}
use go_agent.Plan.Store.Records.{
  PlanEvent, PlanStateSnapshot, PlanCommandRecord, AuditRef, AuditRecord, PlanMetricCheckpoint,
  PlanEventIdempotencyKey, event_key, audit_ref_key, command_ref_key, checkpoint_key,
  audit_ref_from_record, plan_command_ref_from_record,
}
use go_agent.Plan.Store.Codec.{Codec}
use go_agent.Plan.Store.Memory.{or_existing, may_save, may_claim, write_plan_state}
use go_agent.Plan.Store.State.{MemoryPlanStore, Call, or_fail, lift, ◌>>=◌}
use go_agent.Plan.Store.Events.{log_of, event_key_of, stored_event, write_plan_event}
use go_agent.Plan.Store.Outbox.{check_delivered}
use go_agent.Plan.Store.Listings.{checkpoint_key_of, no_backward}

abbrev pub write_audit : AuditRef → AuditRecord → MemoryPlanStore → MemoryPlanStore
write_audit ref audit s = record s { audit_keys = put ref audit s.audit_keys }

abbrev pub write_command : PlanCommandRef → PlanCommandRecord → MemoryPlanStore → MemoryPlanStore
write_command ref command s = record s { commands = put ref command s.commands }

abbrev pub write_checkpoint : PlanMetricCheckpoint → MemoryPlanStore → MemoryPlanStore
write_checkpoint c s = record s { metrics = put (checkpoint_key_of c) c s.metrics }

abbrev pub write_digest : PlanEventIdempotencyKey → String → MemoryPlanStore → MemoryPlanStore
write_digest key digest s = record s {
  transition_snapshots = put key digest s.transition_snapshots;
}

-- `status` moves a command, and nothing else of its envelope.
abbrev pub moved : Time → PlanCommandStatus → String → PlanCommandRecord → PlanCommandRecord
moved now status reason command = record command {
  status = status;
  failure_reason = reason;
  updated_at = now;
}

pub data Write (codec : Codec) : MemoryPlanStore → MemoryPlanStore → Type 0 where
  stay : (s : MemoryPlanStore) → Write codec s s
  save :
      (snapshot : PlanStateSnapshot) (allow_create : Bool) (s : MemoryPlanStore)
      → validate_run_plan_scope snapshot.spec ≡ none
      → may_save codec snapshot allow_create s ≡ none
      → may_claim snapshot s ≡ none
      → Write codec s (write_plan_state snapshot s)
  append :
      (now : Time) (scoped : PlanEvent) (key : String) (spec : RunPlanSpec) (s : MemoryPlanStore)
      → get scoped.plan_id s.specs ≡ some spec
      → scoped.account_id ≡ spec.account_id
      → scoped.project_id ≡ spec.project_id
      → get (event_key_of scoped.plan_id key) s.event_keys ≡ none
      → Write codec s (
          write_plan_event
            (event_key_of scoped.plan_id key)
            (stored_event now scoped (log_of scoped.plan_id s))
            s)
  claim :
      (key : PlanEventIdempotencyKey) (digest : String) (s : MemoryPlanStore)
      → Write codec s (write_digest key digest s)
  audit :
      (entry : AuditRecord) (spec : RunPlanSpec) (s : MemoryPlanStore)
      → get entry.plan_id s.specs ≡ some spec
      → entry.account_id ≡ spec.account_id
      → entry.project_id ≡ spec.project_id
      → get (audit_ref_from_record entry) s.audit_keys ≡ none
      → Write codec s (write_audit (audit_ref_from_record entry) entry s)
  command :
      (new : PlanCommandRecord) (s : MemoryPlanStore)
      → new.status ≡ PlanCommandStatus.pending
      → get (plan_command_ref_from_record new) s.commands ≡ none
      → Write codec s (write_command (plan_command_ref_from_record new) new s)
  move :
      (now : Time) (ref : PlanCommandRef) (status : PlanCommandStatus) (reason : String)
      (current : PlanCommandRecord) (s : MemoryPlanStore)
      → get ref s.commands ≡ some current
      → validate_plan_command_status_transition current.status status ≡ none
      → check_delivered codec ref status current s ≡ none
      → Write codec s (write_command ref (moved now status reason current) s)
  checkpoint :
      (c : PlanMetricCheckpoint) (s : MemoryPlanStore)
      → no_backward (get (checkpoint_key_of c) s.metrics) c ≡ none
      → Write codec s (write_checkpoint c s)
  chain : (s t u : MemoryPlanStore) → Write codec s t → Write codec t u → Write codec s u

-- What holds of the store that a call leaves behind.
module _ {A : Type 0} (P : MemoryPlanStore → Type 0) where
  pub after-or_fail :
      (e : Option Error) (m : Call A) (s : MemoryPlanStore)
      → P s
      → (e ≡ none → P (m s).1)
      → P (or_fail e m s).1
  after-or_fail none m s same next = next refl
  after-or_fail (some e) m s same next = same

  pub after-lift :
      {B : Type 0} (r : Result B) (f : B → Call A) (s : MemoryPlanStore)
      → P s
      → ((b : B) → r ≡ ok b → P (f b s).1)
      → P ((lift r >>= f) s).1
  after-lift (ok b) f s same next = next b refl
  after-lift (err e) f s same next = same

  pub after-bind :
      {B : Type 0} (m : Call B) (f : B → Call A) (s : MemoryPlanStore)
      → P (m s).1
      → ((b : B) (t : MemoryPlanStore) → P t → P (f b t).1)
      → P ((m >>= f) s).1
  after-bind {B = B} m f s first next = after_result (m s) first
    where
      after_result :
          (r : Result B × MemoryPlanStore) → P r.1 → P (((λ (u : MemoryPlanStore). r) >>= f) s).1
      after_result (ok b, t) first = next b t first
      after_result (err e, t) first = first

pub after-or_existing :
    (P : MemoryPlanStore → Type 0) (r : Result (Option RunPlanStatus))
    (m : Call (RunPlanStatus × Bool)) (s : MemoryPlanStore)
    → P s
    → (r ≡ ok none → P (m s).1)
    → P (or_existing r m s).1
after-or_existing P (err e) m s same next = same
after-or_existing P (ok (some status)) m s same next = same
after-or_existing P (ok none) m s same next = next refl

-- What a call that returns has gone through.
pub failed_ok :
    {A : Type 0} {e : Error} {a : A} {s t : MemoryPlanStore}
    → ◌≡◌ {A = Result A × MemoryPlanStore} (err e, s) (ok a, t)
    → ⊥
failed_ok h = cc (ap (λ r. r.0) h)

pub lift_ok :
    {A B : Type 0} (r : Result A) (f : A → Call B) (s : MemoryPlanStore) {b : B}
    {t : MemoryPlanStore}
    → (lift r >>= f) s ≡ (ok b, t)
    → (a : A) × (r ≡ ok a) × (f a s ≡ (ok b, t))
lift_ok (ok a) f s h = (a, refl, h)
lift_ok (err e) f s h = absurd (failed_ok h)

pub or_fail_ok :
    {A : Type 0} (e : Option Error) (m : Call A) (s : MemoryPlanStore) {a : A} {t : MemoryPlanStore}
    → or_fail e m s ≡ (ok a, t)
    → (e ≡ none) × (m s ≡ (ok a, t))
or_fail_ok none m s h = (refl, h)
or_fail_ok (some e) m s h = absurd (failed_ok h)

-- What holds of the result of a call and of the store that it leaves behind.
module _ {A : Type 0} (Q : Result A × MemoryPlanStore → Type 0) where
  pub result-lift :
      {B : Type 0} (r : Result B) (f : B → Call A) (s : MemoryPlanStore)
      → ((e : Error) → r ≡ err e → Q (err e, s))
      → ((b : B) → r ≡ ok b → Q (f b s))
      → Q ((lift r >>= f) s)
  result-lift (ok b) f s failed next = next b refl
  result-lift (err e) f s failed next = failed e refl

  pub result-or_fail :
      (e : Option Error) (f : Call A) (s : MemoryPlanStore)
      → ((x : Error) → e ≡ some x → Q (err x, s))
      → (e ≡ none → Q (f s))
      → Q ((or_fail e (lift (ok tt)) >>= λ (done : Unit {0}). f) s)
  result-or_fail none f s failed next = next refl
  result-or_fail (some e) f s failed next = failed e refl

-- The first call of a chain, once its result is known.
pub bind-ok :
    {A B : Type 0} (m : Call A) (f : A → Call B) (s : MemoryPlanStore) {a : A} {t : MemoryPlanStore}
    → m s ≡ (ok a, t)
    → (m >>= f) s ≡ f a t
bind-ok m f s h = ap (λ r. ((λ u. r) >>= f) s) h

pub bind-err :
    {A B : Type 0} (m : Call A) (f : A → Call B) (s : MemoryPlanStore) {e : Error}
    {t : MemoryPlanStore}
    → m s ≡ (err e, t)
    → (m >>= f) s ≡ (err e, t)
bind-err m f s h = ap (λ r. ((λ u. r) >>= f) s) h

pub chain_ok :
    {A B : Type 0} (m : Call A) (f : A → Call B) (s : MemoryPlanStore) {b : B} {t : MemoryPlanStore}
    → (m >>= f) s ≡ (ok b, t)
    → (a : A) × (u : MemoryPlanStore) × (m s ≡ (ok a, u)) × (f a u ≡ (ok b, t))
chain_ok {A = A} m f s {b = b} {t = t} h = split (m s) refl h
  where
    split :
        (r : Result A × MemoryPlanStore)
        → m s ≡ r
        → ((λ (v : MemoryPlanStore). r) >>= f) s ≡ (ok b, t)
        → (a : A) × (u : MemoryPlanStore) × (m s ≡ (ok a, u)) × (f a u ≡ (ok b, t))
    split (ok a, u) e h = (a, u, e, h)
    split (err e, u) same h = absurd (failed_ok h)
