-- ===== src/Ledger/Replay.antt =====
-- A repeated append is answered by the entry that it made.
use go_agent.Prelude.{
  ◌==ℤ◌, ℤ, pos, negsuc, String, true, key_eq, key_refl, key_iff, string_key, List, [], ◌∷◌, none,
  some, Error, Result, ok, err, check, check_ok, ok_injective, ◌≡◌, refl, sym, ap, subst, ◌∙◌, inl,
  inr, Option-cases, Bool-cases, arith,
}
use go_agent.Prelude.Dict.{get, get-put_self, get-put_other}
use go_agent.Control.{Time}
use go_agent.Ledger.Records.{LedgerEntrySpec, LedgerEntry, LedgerIdempotencyKey, ledger_key}
use go_agent.Ledger.Validate.{validate_ledger_entry_spec}
use go_agent.Ledger.Memory.{
  MemoryStore, ledger_key_from_spec, prepare_ledger_entry, write_entry, same_ledger_json,
  validate_ledger_entry_idempotency, replay_entry, append_ledger_entry_locked, append_ledger_entry,
}
use go_agent.Ledger.Runtime.{memory_store, append_entry}
use go_agent.Ledger.Log.{new_entry, Op, step, run}

same_number : (a : ℤ) → (a ==ℤ a) ≡ true
same_number (pos n) = ground arith
same_number (negsuc n) = ground arith

module _ (marshal : LedgerEntry → Result String) where
  -- What an append does: it is refused before it reads the store, answered by the entry of its key,
  -- refused for its id, or it writes a new entry.
  data Appends (now : Time) (spec : LedgerEntrySpec) (s : MemoryStore)
      : Result LedgerEntry → MemoryStore → Type 0 where
    refused : (e : Error) → Appends now spec s (err e) s
    replayed :
        (existing : LedgerEntry)
        → validate_ledger_entry_spec spec ≡ none
        → get (ledger_key_from_spec spec) s.entry_keys ≡ some existing
        → Appends now spec s (replay_entry marshal spec existing) s
    written :
        (e : LedgerEntry)
        → e ≡ new_entry now spec s.entries
        → validate_ledger_entry_spec spec ≡ none
        → get (ledger_key_from_spec spec) s.entry_keys ≡ none
        → Appends now spec s (ok e) (write_entry e s)

  -- The runtime makes the check that the store makes again.
  append_entry-store :
      (now : Time) (spec : LedgerEntrySpec) (s : MemoryStore)
      → append_entry (memory_store marshal) now spec s ≡ append_ledger_entry marshal now spec s
  unfolding append_entry append_ledger_entry
  append_entry-store now spec s = elim (Option-cases (validate_ledger_entry_spec spec)) [
    | inr (e, bad) ↦ rw (bad, append_entry, append_ledger_entry) refl
    | inl valid ↦ rw (valid, append_entry) refl
  ]

  abbrev AppendsAs :
      Time → LedgerEntrySpec → MemoryStore → Result LedgerEntry × MemoryStore → Type 0
  AppendsAs now spec s r = Appends now spec s r.0 r.1

  locked_cases :
      (now : Time) (spec : LedgerEntrySpec) (s : MemoryStore)
      → validate_ledger_entry_spec spec ≡ none
      → AppendsAs now spec s (append_ledger_entry_locked marshal now spec s)
  unfolding append_ledger_entry_locked
  locked_cases now spec s valid =
      elim (Option-cases (get (ledger_key_from_spec spec) s.entry_keys)) [
        | inr (existing, found) ↦
            rw (found, append_ledger_entry_locked) (Appends.replayed existing valid found)
        | inl free ↦ elim (Option-cases (get spec.entry_id s.entry_by_id)) [
          | inr (existing, found) ↦ rw (free, found, append_ledger_entry_locked) (Appends.refused _)
          | inl unused ↦
              rw (free, unused, append_ledger_entry_locked)
                (Appends.written (new_entry now spec s.entries) refl valid free)
        ]
      ]

  append_cases :
      (now : Time) (spec : LedgerEntrySpec) (s : MemoryStore)
      → AppendsAs now spec s (append_ledger_entry marshal now spec s)
  unfolding append_ledger_entry
  append_cases now spec s = elim (Option-cases (validate_ledger_entry_spec spec)) [
    | inr (e, bad) ↦ rw (bad, append_ledger_entry) (Appends.refused e)
    | inl valid ↦ rw (valid, append_ledger_entry) (locked_cases now spec s valid)
  ]

  -- The entry stands under its key.
  abbrev Claimed : LedgerIdempotencyKey → LedgerEntry → MemoryStore → Type 0
  Claimed key e s = get key s.entry_keys ≡ some e

  Appends-Claimed :
      {now : Time} {spec : LedgerEntrySpec} {s : MemoryStore} {r : Result LedgerEntry}
      {t : MemoryStore} (key : LedgerIdempotencyKey) (e : LedgerEntry)
      → Appends now spec s r t
      → Claimed key e s
      → Claimed key e t
  unfolding prepare_ledger_entry
  Appends-Claimed key e (Appends.refused x) h = h
  Appends-Claimed key e (Appends.replayed existing valid found) h = h
  Appends-Claimed {now} {spec} {s} key e (Appends.written new made valid free) h =
      elim (Bool-cases (key_eq (ledger_key_from_spec new.spec) key)) [
        | inl same ↦ cc (h, free, (key_iff (ledger_key_from_spec new.spec) key).0 same)
        | inr other ↦ get-put_other (ledger_key_from_spec new.spec) key new s.entry_keys other ∙ h
      ]

  run-Claimed :
      (ops : List Op) (key : LedgerIdempotencyKey) (e : LedgerEntry) (s : MemoryStore)
      → Claimed key e s
      → Claimed key e (run (memory_store marshal) ops s).1
  unfolding run step
  run-Claimed [] key e s h = h
  run-Claimed (Op.append now spec ∷ ops) key e s h =
      run-Claimed ops key e (append_entry (memory_store marshal) now spec s).1 (
        subst (λ r. Claimed key e r.1) (sym (append_entry-store now spec s))
          (Appends-Claimed key e (append_cases now spec s) h))
  run-Claimed (Op.list scope ∷ ops) key e s h = run-Claimed ops key e s h

  -- A valid request under a claimed key is answered from the entry, and writes nothing.
  append-Claimed :
      (now : Time) (spec : LedgerEntrySpec) (e : LedgerEntry) (s : MemoryStore)
      → validate_ledger_entry_spec spec ≡ none
      → Claimed (ledger_key_from_spec spec) e s
      → append_entry (memory_store marshal) now spec s ≡ (replay_entry marshal spec e, s)
  unfolding append_ledger_entry append_ledger_entry_locked
  append-Claimed now spec e s valid found =
      append_entry-store now spec s
      ∙ rw (valid, found, append_ledger_entry, append_ledger_entry_locked) refl

  same_entry :
      (e : LedgerEntry) {json : String}
      → marshal e ≡ ok json
      → validate_ledger_entry_idempotency marshal e e ≡ none
  unfolding validate_ledger_entry_idempotency same_ledger_json
  same_entry e {json} document =
      rw
        (
          key_refl e.spec.entry_id,
          same_number e.sequence,
          document,
          same_ledger_json,
          key_refl json,
        )
        refl

  -- The new entry is the entry that its own request asks for.
  replay_new :
      (now : Time) (spec : LedgerEntrySpec) (log : List LedgerEntry) {json : String}
      → marshal (new_entry now spec log) ≡ ok json
      → replay_entry marshal spec (new_entry now spec log) ≡ ok (new_entry now spec log)
  unfolding replay_entry prepare_ledger_entry
  replay_new now spec log document =
      ap (λ e. check e (ok (new_entry now spec log))) (same_entry (new_entry now spec log) document)

  -- What a first append leaves for its repetitions.
  record Answered (spec : LedgerEntrySpec) (e : LedgerEntry) (t : MemoryStore) : Type 0 where
    valid : validate_ledger_entry_spec spec ≡ none
    claimed : Claimed (ledger_key_from_spec spec) e t
    again : replay_entry marshal spec e ≡ ok e

  Appends-Answered :
      {now : Time} {spec : LedgerEntrySpec} {s : MemoryStore} {r : Result LedgerEntry}
      {t : MemoryStore} (e : LedgerEntry) {json : String}
      → Appends now spec s r t
      → r ≡ ok e
      → marshal e ≡ ok json
      → Answered spec e t
  unfolding prepare_ledger_entry replay_entry
  Appends-Answered e (Appends.refused x) h document = cc
  Appends-Answered {spec} {s} e (Appends.replayed existing valid found) h document =
      let passed = check_ok _ (ok existing) h in
      let same = ok_injective existing e passed.1 in
      record {
        valid = valid;
        claimed = found ∙ ap some same;
        again = ap (replay_entry marshal spec) (sym same) ∙ h;
      }
  Appends-Answered {now} {spec} {s} e (Appends.written new made valid free) h document =
      let same = sym made ∙ ok_injective new e h in
      let own = ap (λ (x : LedgerEntry). ledger_key_from_spec x.spec) made in
      record {
        valid = valid;
        claimed =
            subst (λ k. get k (write_entry new s).entry_keys ≡ some e) own
              (get-put_self (ledger_key_from_spec new.spec) new s.entry_keys
                ∙ ap some (ok_injective new e h));
        again =
            subst (λ x. replay_entry marshal spec x ≡ ok x) same
              (replay_new now spec s.entries (ap marshal same ∙ document));
      }

  -- An append that returned an entry which has a JSON document returns it again, whatever calls came
  -- between and at whatever time, and the repetition changes nothing.
  pub append-append :
      (now later : Time) (spec : LedgerEntrySpec) (ops : List Op) (s : MemoryStore)
      {t : MemoryStore} (e : LedgerEntry) {json : String}
      → append_entry (memory_store marshal) now spec s ≡ (ok e, t)
      → marshal e ≡ ok json
      → let u = (run (memory_store marshal) ops t).1 in
        append_entry (memory_store marshal) later spec u ≡ (ok e, u)
  append-append now later spec ops s {t} e {json} h document =
      let first = sym (append_entry-store now spec s) ∙ h in
      let done =
        subst (Answered spec e) (ap (λ r. r.1) first)
          (Appends-Answered e (append_cases now spec s) (ap (λ r. r.0) first) document) in
      let u = (run (memory_store marshal) ops t).1 in
      append-Claimed later spec e u done.valid
        (run-Claimed ops (ledger_key_from_spec spec) e t done.claimed)
      ∙ ap (λ r. (r, u)) done.again
