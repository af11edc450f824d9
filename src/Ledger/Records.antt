-- ===== src/Ledger/Records.antt =====
-- The contracts of the ledger (agentos/process/ledger.go, and `ResourceRef` of process.go).
use go_agent.Prelude.{ℤ, String, Key, string_key, List, refl}
use go_agent.Prelude.Keys.{pair_key, key_via}
use go_agent.Control.{Time, Metadata, ArtifactRef}

-- `ResourceKind` and `LedgerEntryKind` are texts.
pub record ResourceRef : Type 0 where
  pub kind : String
  pub resource_id : String
  pub account_id : String
  pub project_id : String

pub record ActorRef : Type 0 where
  pub kind : String
  pub actor_id : String

pub record LedgerDataRef : Type 0 where
  pub kind : String
  pub uri : String
  pub artifact_id : String
  pub media_type : String
  pub digest : String
  pub metadata : Metadata

pub record LedgerEntrySpec : Type 0 where
  pub entry_id : String
  pub idempotency_key : String
  pub account_id : String
  pub project_id : String
  pub process_id : String
  pub resource : ResourceRef
  pub kind : String
  pub actor : ActorRef
  pub occurred_at : Time
  pub summary : String
  pub rationale : String
  pub data_refs : List LedgerDataRef
  pub artifact_refs : List ArtifactRef
  pub metadata : Metadata

-- The embedded specification is the field `spec`.
pub record LedgerEntry : Type 0 where
  pub spec : LedgerEntrySpec
  pub sequence : ℤ
  pub created_at : Time

pub record LedgerScope : Type 0 where
  pub account_id : String
  pub project_id : String
  pub process_id : String
  pub resource : ResourceRef
  pub kind : String
  pub after_sequence : ℤ
  pub limit : ℤ

pub record LedgerIdempotencyKey : Type 0 where
  pub account_id : String
  pub project_id : String
  pub idempotency_key : String

instance abbrev pub resource_key : Key ResourceRef
resource_key =
    key_via {B = String × (String × (String × String))}
      (λ r. (r.kind, (r.resource_id, (r.account_id, r.project_id))))
      (λ p. record { kind = p.0; resource_id = p.1.0; account_id = p.1.1.0; project_id = p.1.1.1 })
      (λ r. refl)

instance abbrev pub ledger_key : Key LedgerIdempotencyKey
ledger_key =
    key_via {B = String × (String × String)}
      (λ r. (r.account_id, (r.project_id, r.idempotency_key)))
      (λ p. record { account_id = p.0; project_id = p.1.0; idempotency_key = p.1.1 }) (λ r. refl)
