-- ===== src/Ledger/Refinement.antt =====
-- The in-process ledger store is a plain log.
use go_agent.Prelude.{
  String, Bool, true, string_key, List, [], ◌∷◌, All-map, All-select, select, none, Result, ok,
  check, ◌≡◌, refl, sym, ap, subst, ◌∙◌, inl, inr, Option-cases, Bool-cases,
}
use go_agent.Prelude.Dict.{get}
use go_agent.Prelude.Page.{page-cut}
use go_agent.Prelude.Sort.{IsSortedBy, sort_by-sorted}
use go_agent.Control.{Time}
use go_agent.Ledger.Records.{LedgerEntrySpec, LedgerEntry, LedgerScope, ledger_key}
use go_agent.Ledger.Validate.{validate_ledger_entry_spec, validate_ledger_scope}
use go_agent.Ledger.Memory.{
  MemoryStore, new_memory_store, ledger_key_from_spec, prepare_ledger_entry, limited,
  ledger_entry_matches_scope, entry_leb, append_ledger_entry_locked, append_ledger_entry,
  list_ledger_entries,
}
use go_agent.Ledger.Runtime.{memory_store, append_entry, list_entries}
use go_agent.Ledger.Log.{new_entry, append_log, list_log, plain_log, Op, Outcome, step, run}
use go_agent.Ledger.Indexed.{IsIndexed, Numbered-IsSortedBy, write_entry-IsIndexed}

-- A call on the store returns what it returns on the log, leaves the log in the store, and keeps
-- the indexes.
record Agrees {A : Type 0} (r : A × MemoryStore) (q : A × List LedgerEntry) : Type 0 where
  result : r.0 ≡ q.0
  entries : r.1.entries ≡ q.1
  indexed : IsIndexed r.1

select-IsSortedBy :
    {A : Type 0} (le : A → A → Bool) (p : A → Bool) (xs : List A)
    → IsSortedBy le xs
    → IsSortedBy le (select p xs)
select-IsSortedBy le p [] h = tt
select-IsSortedBy le p (x ∷ xs) h = elim (Bool-cases (p x)) [
  | inl kept ↦
      let later = All-select (λ y. le x y ≡ true) p xs (All-map _ _ xs (λ y q _. q) h.0) in
      rw kept (later, select-IsSortedBy le p xs h.1)
  | inr left ↦ rw left (select-IsSortedBy le p xs h.1)
]

list-list_log :
    (scope : LedgerScope) (s : MemoryStore)
    → IsIndexed s
    → list_ledger_entries scope s ≡ list_log scope s.entries
unfolding list_ledger_entries list_log
list-list_log scope s h =
    let matching = select (ledger_entry_matches_scope scope) s.entries in
    let sorted = sort_by-sorted entry_leb matching (
      select-IsSortedBy entry_leb (ledger_entry_matches_scope scope) s.entries
        (Numbered-IsSortedBy 0 s.entries h.numbered)) in
    ap (λ l. check (validate_ledger_scope scope) (ok l))
      (ap (limited scope.limit) sorted ∙ page-cut scope.limit matching)

module _ (marshal : LedgerEntry → Result String) where
  locked-Agrees :
      (now : Time) (spec : LedgerEntrySpec) (s : MemoryStore)
      → validate_ledger_entry_spec spec ≡ none
      → IsIndexed s
      → Agrees
          (append_ledger_entry_locked marshal now spec s)
          (append_log marshal now spec s.entries)
  unfolding append_ledger_entry_locked append_log prepare_ledger_entry
  locked-Agrees now spec s valid h =
      let key = h.by_key (ledger_key_from_spec spec) in
      let id = h.by_id spec.entry_id in
      elim (Option-cases (get (ledger_key_from_spec spec) s.entry_keys)) [
        | inr (existing, found) ↦
            rw (found, append_ledger_entry_locked, append_log, valid, sym key ∙ found)
              (record { result = refl; entries = refl; indexed = h })
        | inl free ↦ elim (Option-cases (get spec.entry_id s.entry_by_id)) [
          | inr (existing, found) ↦
              rw
                (
                  free,
                  found,
                  append_ledger_entry_locked,
                  append_log,
                  valid,
                  sym key ∙ free,
                  sym id ∙ found,
                )
                (record { result = refl; entries = refl; indexed = h })
          | inl unused ↦
              rw
                (
                  free,
                  unused,
                  append_ledger_entry_locked,
                  append_log,
                  valid,
                  sym key ∙ free,
                  sym id ∙ unused,
                )
                (record {
                  result = refl;
                  entries = refl;
                  indexed =
                      write_entry-IsIndexed (new_entry now spec s.entries) s unused free refl h;
                })
        ]
      ]

  append_valid :
      (now : Time) (spec : LedgerEntrySpec) (s : MemoryStore)
      → validate_ledger_entry_spec spec ≡ none
      → append_ledger_entry marshal now spec s ≡ append_ledger_entry_locked marshal now spec s
  unfolding append_ledger_entry
  append_valid now spec s valid = rw (valid, append_ledger_entry) refl

  append-Agrees :
      (now : Time) (spec : LedgerEntrySpec) (s : MemoryStore)
      → IsIndexed s
      → Agrees
          (append_entry (memory_store marshal) now spec s)
          (append_entry (plain_log marshal) now spec s.entries)
  unfolding append_entry
  append-Agrees now spec s h = elim (Option-cases (validate_ledger_entry_spec spec)) [
    | inr (e, bad) ↦ rw (bad, append_entry) (record { result = refl; entries = refl; indexed = h })
    | inl valid ↦
        rw (valid, append_entry)
          (subst (λ r. Agrees r (append_log marshal now spec s.entries))
            (sym (append_valid now spec s valid)) (locked-Agrees now spec s valid h))
  ]

  step-Agrees :
      (op : Op) (s : MemoryStore)
      → IsIndexed s
      → Agrees (step (memory_store marshal) op s) (step (plain_log marshal) op s.entries)
  unfolding step list_entries
  step-Agrees (Op.append now spec) s h =
      let call = append-Agrees now spec s h in
      record {
        result = ap Outcome.appended call.result;
        entries = call.entries;
        indexed = call.indexed;
      }
  step-Agrees (Op.list scope) s h = record {
    result =
        ap (λ r. Outcome.listed (check (validate_ledger_scope scope) r)) (list-list_log scope s h);
    entries = refl;
    indexed = h;
  }

  run-Agrees :
      (ops : List Op) (s : MemoryStore)
      → IsIndexed s
      → Agrees (run (memory_store marshal) ops s) (run (plain_log marshal) ops s.entries)
  unfolding run
  run-Agrees [] s h = record { result = refl; entries = refl; indexed = h }
  run-Agrees (op ∷ ops) s h =
      let first = step-Agrees op s h in
      let t = (step (memory_store marshal) op s).1 in
      let rest = run-Agrees ops t first.indexed in
      let same = ap (run (plain_log marshal) ops) first.entries in
      record {
        result =
            ap (λ r. r ∷ (run (memory_store marshal) ops t).0) first.result
            ∙ ap (λ l. (step (plain_log marshal) op s.entries).0 ∷ l)
                (rest.result ∙ ap (λ q. q.0) same);
        entries = rest.entries ∙ ap (λ q. q.1) same;
        indexed = rest.indexed;
      }

  -- Whatever appends and listings are called on a new ledger, each returns what it returns on a
  -- plain log, in which keys and ids are found by searching, a new entry takes the next number and
  -- stands at the end, and a listing is a page of the matching entries in their order; and the
  -- entries that the store is left with are that log.
  pub run-plain_log :
      (ops : List Op)
      → ((run (memory_store marshal) ops new_memory_store).0 ≡ (run (plain_log marshal) ops []).0)
        × ((run (memory_store marshal) ops new_memory_store).1.entries
            ≡ (run (plain_log marshal) ops []).1)
  unfolding get
  run-plain_log ops =
      let all =
        run-Agrees ops new_memory_store
          (record { by_id = λ j. refl; by_key = λ j. refl; numbered = tt }) in
      (all.result, all.entries)
