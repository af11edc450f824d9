-- ===== src/Ledger/Runtime.antt =====
-- The ledger use case over a store (internal/usecase/agentosledger/runtime.go, contract.go), and the
-- in-process store as one.
use go_agent.Prelude.{String, List, none, some, Result, err, check}
use go_agent.Control.{Time}
use go_agent.Ledger.Records.{LedgerEntrySpec, LedgerEntry, LedgerScope}
use go_agent.Ledger.Validate.{validate_ledger_entry_spec, validate_ledger_scope}
use go_agent.Ledger.Memory.{MemoryStore, append_ledger_entry, list_ledger_entries}

-- `Store`, on the states that an implementation has; the clock is that of the store.
pub record Store (S : Type 0) : Type 0 where
  pub append : Time → LedgerEntrySpec → S → Result LedgerEntry × S
  pub list : LedgerScope → S → Result (List LedgerEntry)

abbrev pub memory_store : (LedgerEntry → Result String) → Store MemoryStore
memory_store marshal = record { append = append_ledger_entry marshal; list = list_ledger_entries }

module _ {S : Type 0} (store : Store S) where
  -- `Runtime.AppendLedgerEntry`.
  unfoldable pub append_entry : Time → LedgerEntrySpec → S → Result LedgerEntry × S
  unfolding validate_ledger_entry_spec
  append_entry now spec s = elim (validate_ledger_entry_spec spec) [
    | some e ↦ (err e, s)
    | none ↦ store.append now spec s
  ]

  -- `Runtime.ListLedgerEntries`.
  unfoldable pub list_entries : LedgerScope → S → Result (List LedgerEntry)
  unfolding validate_ledger_scope
  list_entries scope s = check (validate_ledger_scope scope) (store.list scope s)
