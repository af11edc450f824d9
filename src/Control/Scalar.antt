-- ===== src/Control/Scalar.antt =====
-- The values that Go's `any` holds after JSON decoding, the shared scalars, and artifact references
-- (agentos/core/types.go, agentos/control/types.go).
use go_agent.Prelude.{ℕ, ℤ, String, Bool}
use go_agent.Prelude.Dict.{Dict}

-- `time.Time`: nanoseconds since the zero time, so that 0 is the time for which `IsZero` holds.
abbrev pub Time : Type 0
Time = ℕ

mutual
  pub data Value : Type 0 where
    null : Value
    flag : Bool → Value
    number : String → Value
    text : String → Value
    array : Items → Value
    object : Fields → Value

  pub data Items : Type 0 where
    nil : Items
    item : Value → Items → Items

  pub data Fields : Type 0 where
    end : Fields
    field : String → Value → Fields → Fields

abbrev pub Metadata : Type 0
Metadata = Dict String String

pub record BackendRef : Type 0 where
  pub kind : String
  pub name : String

pub record ArtifactRef : Type 0 where
  pub artifact_id : String
  pub plan_id : String
  pub node_id : String
  pub run_id : String
  pub name : String
  pub kind : String
  pub media_type : String
  pub uri : String
  pub size_bytes : ℤ
  pub digest : String
  pub metadata : Metadata
  pub created_at : Time
