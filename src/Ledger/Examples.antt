-- ===== src/Ledger/Examples.antt =====
-- The ledger with two tenants.
use go_agent.Prelude.{
  pos, String, List, [], ◌∷◌, Result, ok, err, string_key, is_empty, ◌≡◌, refl, errorf, err_foreign,
  if◌then◌else◌,
}
use go_agent.Prelude.Decimal.{◌+++◌}
use go_agent.Ledger.Records.{ResourceRef, LedgerEntrySpec, LedgerEntry, LedgerScope}
use go_agent.Ledger.Memory.{
  MemoryStore, new_memory_store, prepare_ledger_entry, append_ledger_entry, list_ledger_entries,
}
use go_agent.Ledger.Runtime.{memory_store, append_entry}
use go_agent.Ledger.Log.{Op, run, plain_log, new_entry}
use go_agent.Ledger.Refinement.{run-plain_log}
use go_agent.Ledger.Replay.{append-append}

-- Entries without an id have no document.
abbrev marshal : LedgerEntry → Result String
marshal e =
    if is_empty e.spec.entry_id
    then err (errorf err_foreign "unsupported" [])
    else ok (e.spec.entry_id +++ "/" +++ e.spec.summary)

abbrev no_resource : ResourceRef
no_resource = record { kind = ""; resource_id = ""; account_id = ""; project_id = "" }

abbrev decision : LedgerEntrySpec
decision = record {
  entry_id = "e1";
  idempotency_key = "k1";
  account_id = "account";
  project_id = "project";
  process_id = "p1";
  resource = no_resource;
  kind = "decision";
  actor = record { kind = "agent"; actor_id = "a1" };
  occurred_at = 0;
  summary = "chosen";
  rationale = "";
  data_refs = [];
  artifact_refs = [];
  metadata = [];
}

abbrev evidence : LedgerEntrySpec
evidence = record decision {
  entry_id = "e2";
  account_id = "other";
  kind = "evidence";
  occurred_at = 40;
}

abbrev scope : LedgerScope
scope = record {
  account_id = "account";
  project_id = "project";
  process_id = "";
  resource = no_resource;
  kind = "";
  after_sequence = pos 0;
  limit = pos 5;
}

-- The last append claims the id of another tenant's entry.
abbrev ops : List Op
ops =
    Op.append 50 evidence
    ∷ Op.append 60 decision
    ∷ Op.list scope
    ∷ Op.append 70 (record decision { entry_id = "e2"; idempotency_key = "k3" })
    ∷ []

abbrev decided : LedgerEntry
decided = new_entry 30 decision []

abbrev ledger : MemoryStore
ledger = (append_entry (memory_store marshal) 30 decision new_memory_store).1

appended_first :
    append_entry (memory_store marshal) 30 decision new_memory_store ≡ (ok decided, ledger)
unfolding append_entry append_ledger_entry
appended_first = refl

listed_one : list_ledger_entries scope (run (memory_store marshal) ops ledger).1 ≡ ok (decided ∷ [])
unfolding list_ledger_entries run append_entry append_ledger_entry
listed_one = refl

append-append_example :
    let u = (run (memory_store marshal) ops ledger).1 in
    append_entry (memory_store marshal) 80 decision u ≡ (ok decided, u)
unfolding prepare_ledger_entry
append-append_example =
    append-append marshal 30 80 decision ops new_memory_store decided appended_first refl

run-plain_log_example :
    ((run (memory_store marshal) ops new_memory_store).0 ≡ (run (plain_log marshal) ops []).0)
    × ((run (memory_store marshal) ops new_memory_store).1.entries
        ≡ (run (plain_log marshal) ops []).1)
run-plain_log_example = run-plain_log marshal ops
