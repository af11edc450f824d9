-- ===== src/Ledger/Memory.antt =====
-- The in-process ledger store and the runtime before it
-- (internal/usecase/agentosledger/memory_store.go, idempotency.go, runtime.go). A call returns its
-- result and the store that it leaves behind. The lock makes it one step, `now` is the reading of
-- the clock, and copies of entries are the entries.
use go_agent.Prelude.{
  ◌==◌, suc, ℤ, pos, pos_part, ltb_ℤ, leb_ℤ, ◌==ℤ◌, String, is_empty, Bool, false, not, ◌&&◌, ◌||◌,
  key_eq, string_key, List, [], ◌∷◌, ◌++◌, length, take, select, none, some, Option, Error, Result,
  ok, err, errorf, err_invalid_ledger_entry, check, if◌then◌else◌,
}
use go_agent.Prelude.Dict.{Dict, get, put}
use go_agent.Prelude.Sort.{sort_by}
use go_agent.Control.{Time}
use go_agent.Ledger.Records.{
  LedgerEntrySpec, LedgerEntry, LedgerScope, LedgerIdempotencyKey, resource_key, ledger_key,
}
use go_agent.Ledger.Validate.{validate_ledger_entry_spec, validate_ledger_scope}

pub record MemoryStore : Type 0 where
  pub entries : List LedgerEntry
  pub entry_by_id : Dict String LedgerEntry
  pub entry_keys : Dict LedgerIdempotencyKey LedgerEntry

abbrev pub new_memory_store : MemoryStore
new_memory_store = record { entries = []; entry_by_id = []; entry_keys = [] }

abbrev pub ledger_key_from_spec : LedgerEntrySpec → LedgerIdempotencyKey
ledger_key_from_spec spec = record {
  account_id = spec.account_id;
  project_id = spec.project_id;
  idempotency_key = spec.idempotency_key;
}

unfoldable pub prepare_ledger_entry : LedgerEntrySpec → ℤ → Time → LedgerEntry
prepare_ledger_entry spec sequence created_at = record {
  spec = record spec {
    occurred_at = if spec.occurred_at == 0 then created_at else spec.occurred_at;
  };
  sequence = sequence;
  created_at = created_at;
}

unfoldable pub ledger_entry_matches_scope : LedgerScope → LedgerEntry → Bool
ledger_entry_matches_scope scope entry =
    if not (key_eq entry.spec.account_id scope.account_id)
      || not (key_eq entry.spec.project_id scope.project_id)
    then false
    else if leb_ℤ entry.sequence scope.after_sequence
    then false
    else if not (is_empty scope.process_id) && not (key_eq entry.spec.process_id scope.process_id)
    then false
    else if not (is_empty scope.kind) && not (key_eq entry.spec.kind scope.kind)
    then false
    else is_empty scope.resource.kind || key_eq entry.spec.resource scope.resource

abbrev pub entry_leb : LedgerEntry → LedgerEntry → Bool
entry_leb a b = leb_ℤ a.sequence b.sequence

-- `len(filtered) > scope.Limit`, then the cut.
abbrev pub limited : ℤ → List LedgerEntry → List LedgerEntry
limited limit entries =
    if ltb_ℤ (pos 0) limit && ltb_ℤ limit (pos (length entries))
    then take (pos_part limit) entries
    else entries

unfoldable pub list_ledger_entries : LedgerScope → MemoryStore → Result (List LedgerEntry)
unfolding validate_ledger_scope ledger_entry_matches_scope sort_by
list_ledger_entries scope s = check (validate_ledger_scope scope) (
    ok (
      limited scope.limit
        (sort_by entry_leb (select (ledger_entry_matches_scope scope) s.entries))))

abbrev pub write_entry : LedgerEntry → MemoryStore → MemoryStore
write_entry entry s = record {
  entries = s.entries ++ entry ∷ [];
  entry_by_id = put entry.spec.entry_id entry s.entry_by_id;
  entry_keys = put (ledger_key_from_spec entry.spec) entry s.entry_keys;
}

-- `json.Marshal` of an entry is a parameter; the cause of its error is left out.
module _ (marshal : LedgerEntry → Result String) where
  unfoldable pub same_ledger_json : Result String → Result String → Option Error
  same_ledger_json (err e) requested =
      some (errorf err_invalid_ledger_entry "marshal existing ledger entry: %w" [])
  same_ledger_json (ok existing) (err e) =
      some (errorf err_invalid_ledger_entry "marshal requested ledger entry: %w" [])
  same_ledger_json (ok existing) (ok requested) =
      if key_eq existing requested
      then none
      else some (
          errorf err_invalid_ledger_entry "ledger idempotency key was reused with a different entry"
            [])

  -- The number of the entry, which a message prints, is left out.
  unfoldable pub validate_ledger_entry_idempotency : LedgerEntry → LedgerEntry → Option Error
  unfolding same_ledger_json
  validate_ledger_entry_idempotency existing requested =
      if not (key_eq existing.spec.entry_id requested.spec.entry_id)
      then some (
          errorf err_invalid_ledger_entry "ledger idempotency key belongs to entry %q"
            (existing.spec.entry_id ∷ []))
      else if not (existing.sequence ==ℤ requested.sequence)
      then some (errorf err_invalid_ledger_entry "ledger idempotency key belongs to sequence %d" [])
      else same_ledger_json (marshal existing) (marshal requested)

  -- The result of a repeated request.
  unfoldable pub replay_entry : LedgerEntrySpec → LedgerEntry → Result LedgerEntry
  unfolding prepare_ledger_entry validate_ledger_entry_idempotency
  replay_entry spec existing =
      check
        (validate_ledger_entry_idempotency existing
          (prepare_ledger_entry spec existing.sequence existing.created_at))
        (ok existing)

  unfoldable pub append_ledger_entry_locked :
      Time → LedgerEntrySpec → MemoryStore → Result LedgerEntry × MemoryStore
  unfolding get put replay_entry prepare_ledger_entry
  append_ledger_entry_locked now spec s = elim (get (ledger_key_from_spec spec) s.entry_keys) [
    | some existing ↦ (replay_entry spec existing, s)
    | none ↦ elim (get spec.entry_id s.entry_by_id) [
      | some existing ↦ (
        err (
            errorf err_invalid_ledger_entry "ledger entry %q already exists with idempotency key %q"
              (existing.spec.entry_id ∷ existing.spec.idempotency_key ∷ [])),
        s,
      )
      | none ↦
          let created_at = if spec.occurred_at == 0 then now else spec.occurred_at in
          let entry = prepare_ledger_entry spec (pos (suc (length s.entries))) created_at in
          (ok entry, write_entry entry s)
    ]
  ]

  unfoldable pub append_ledger_entry :
      Time → LedgerEntrySpec → MemoryStore → Result LedgerEntry × MemoryStore
  unfolding validate_ledger_entry_spec append_ledger_entry_locked
  append_ledger_entry now spec s = elim (validate_ledger_entry_spec spec) [
    | some e ↦ (err e, s)
    | none ↦ append_ledger_entry_locked now spec s
  ]
