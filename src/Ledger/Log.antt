-- ===== src/Ledger/Log.antt =====
-- What the ledger promises: a plain log, in which keys and ids are found by searching.
use go_agent.Prelude.{
  ◌==◌, suc, pos, String, Bool, key_eq, string_key, List, [], ◌∷◌, ◌++◌, length, select, none, some,
  Option, Result, ok, err, errorf, err_invalid_ledger_entry, check, if◌then◌else◌,
}
use go_agent.Prelude.Page.{page}
use go_agent.Control.{Time}
use go_agent.Ledger.Records.{LedgerEntrySpec, LedgerEntry, LedgerScope, ledger_key}
use go_agent.Ledger.Validate.{validate_ledger_entry_spec, validate_ledger_scope}
use go_agent.Ledger.Memory.{
  ledger_key_from_spec, prepare_ledger_entry, ledger_entry_matches_scope, replay_entry,
}
use go_agent.Ledger.Runtime.{Store, append_entry, list_entries}

-- The first entry that passes a test.
abbrev pub find : (LedgerEntry → Bool) → List LedgerEntry → Option LedgerEntry
find p [] = none
find p (e ∷ log) = if p e then some e else find p log

abbrev pub claims : LedgerEntrySpec → LedgerEntry → Bool
claims spec e = key_eq (ledger_key_from_spec e.spec) (ledger_key_from_spec spec)

abbrev pub names : LedgerEntrySpec → LedgerEntry → Bool
names spec e = key_eq e.spec.entry_id spec.entry_id

-- The entry that a new request makes, with the number `n`; it happened when it says, or now.
abbrev pub new_entry : Time → LedgerEntrySpec → List LedgerEntry → LedgerEntry
new_entry now spec log =
    prepare_ledger_entry spec (pos (suc (length log)))
      (if spec.occurred_at == 0 then now else spec.occurred_at)

-- A page of the log: the entries of the scope, in their order.
unfoldable pub list_log : LedgerScope → List LedgerEntry → Result (List LedgerEntry)
unfolding validate_ledger_scope ledger_entry_matches_scope
list_log scope log =
    check (validate_ledger_scope scope)
      (ok (page scope.limit (select (ledger_entry_matches_scope scope) log)))

-- A call, with the reading of the clock, and what it returns.
pub data Op : Type 0 where
  append : Time → LedgerEntrySpec → Op
  list : LedgerScope → Op

pub data Outcome : Type 0 where
  appended : Result LedgerEntry → Outcome
  listed : Result (List LedgerEntry) → Outcome

module _ (marshal : LedgerEntry → Result String) where
  unfoldable pub append_log :
      Time → LedgerEntrySpec → List LedgerEntry → Result LedgerEntry × List LedgerEntry
  unfolding validate_ledger_entry_spec replay_entry prepare_ledger_entry
  append_log now spec log = elim (validate_ledger_entry_spec spec) [
    | some e ↦ (err e, log)
    | none ↦ elim (find (claims spec) log) [
      | some existing ↦ (replay_entry marshal spec existing, log)
      | none ↦ elim (find (names spec) log) [
        | some existing ↦ (
          err (
              errorf err_invalid_ledger_entry
                "ledger entry %q already exists with idempotency key %q"
                (existing.spec.entry_id ∷ existing.spec.idempotency_key ∷ [])),
          log,
        )
        | none ↦ (ok (new_entry now spec log), log ++ new_entry now spec log ∷ [])
      ]
    ]
  ]

  abbrev pub plain_log : Store (List LedgerEntry)
  plain_log = record { append = append_log; list = list_log }

-- What a sequence of calls returns, and the state that it leaves behind.
module _ {S : Type 0} (store : Store S) where
  unfoldable pub step : Op → S → Outcome × S
  unfolding append_entry list_entries
  step (Op.append now spec) s =
      let (r, t) = append_entry store now spec s in (Outcome.appended r, t)
  step (Op.list scope) s = (Outcome.listed (list_entries store scope s), s)

  unfoldable pub run : List Op → S → List Outcome × S
  unfolding step
  run [] s = ([], s)
  run (op ∷ ops) s = let (r, t) = step op s in let (rest, u) = run ops t in (r ∷ rest, u)
