-- ===== src/Ledger/Indexed.antt =====
-- The maps of the in-process ledger store are indexes of its entries.
use go_agent.Prelude.{
  ℕ, suc, ◌+◌, ◌≤◌, pos, Bool, true, false, Key, key_eq, key_iff, string_key, List, [], ◌∷◌, ◌++◌,
  length, All, none, some, ◌≡◌, refl, sym, ap, ◌∙◌, inl, inr, Bool-cases, arith, if◌then◌else◌,
}
use go_agent.Prelude.Dict.{Dict, get, put, get-put_other, get-put_same}
use go_agent.Prelude.Sort.{IsSortedBy}
use go_agent.Ledger.Records.{LedgerEntry, ledger_key}
use go_agent.Ledger.Memory.{MemoryStore, ledger_key_from_spec, write_entry, entry_leb}
use go_agent.Ledger.Log.{find}

find_snoc :
    (p : LedgerEntry → Bool) (log : List LedgerEntry) (e : LedgerEntry)
    → find p log ≡ none
    → find p (log ++ e ∷ []) ≡ (if p e then some e else none)
find_snoc p [] e h = refl
find_snoc p (x ∷ log) e h = ground (arith, find_snoc p log e)

find_snoc_other :
    (p : LedgerEntry → Bool) (log : List LedgerEntry) (e : LedgerEntry)
    → p e ≡ false
    → find p (log ++ e ∷ []) ≡ find p log
find_snoc_other p [] e h = rw h refl
find_snoc_other p (x ∷ log) e h = ground (arith, find_snoc_other p log e)

-- A map from keys to entries answers as a search of the log.
module _ {K : Type 0} ⦃k : Key K⦄ (f : LedgerEntry → K) where
  abbrev pub Indexes : Dict K LedgerEntry → List LedgerEntry → Type 0
  Indexes d log = (j : K) → get j d ≡ find (λ e. key_eq (f e) j) log

  put-Indexes :
      (d : Dict K LedgerEntry) (log : List LedgerEntry) (e : LedgerEntry)
      → get (f e) d ≡ none
      → Indexes d log
      → Indexes (put (f e) e d) (log ++ e ∷ [])
  put-Indexes d log e new h j = elim (Bool-cases (key_eq (f e) j)) [
    | inl same ↦
        let absent : find (λ x. key_eq (f x) j) log ≡ none =
          sym (h j) ∙ ap (λ i. get i d) (sym ((key_iff (f e) j).0 same)) ∙ new in
        get-put_same (f e) j e d same
        ∙ sym (find_snoc (λ x. key_eq (f x) j) log e absent ∙ rw same refl)
    | inr other ↦
        get-put_other (f e) j e d other
        ∙ h j
        ∙ sym (find_snoc_other (λ x. key_eq (f x) j) log e other)
  ]

-- The entries are numbered on from `n`.
abbrev pub Numbered : ℕ → List LedgerEntry → Type 0
Numbered n [] = Unit
Numbered n (e ∷ log) = (e.sequence ≡ pos (suc n)) × Numbered (suc n) log

Numbered-snoc :
    (n : ℕ) (log : List LedgerEntry) (e : LedgerEntry)
    → e.sequence ≡ pos (suc (n + length log))
    → Numbered n log
    → Numbered n (log ++ e ∷ [])
Numbered-snoc n [] e at h = (ground (arith, at), tt)
Numbered-snoc n (x ∷ log) e at h =
    (h.0, Numbered-snoc (suc n) log e (at ∙ ap (λ m. pos (suc m)) (omega arith)) h.1)

Numbered-later :
    (n m : ℕ) (e : LedgerEntry) (log : List LedgerEntry)
    → e.sequence ≡ pos m
    → m ≤ n
    → Numbered n log
    → All (λ x. entry_leb e x ≡ true) log
Numbered-later n m e [] at below h = tt
Numbered-later n m e (x ∷ log) at below h =
    (ground (arith, h.0), Numbered-later (suc n) m e log at (omega (arith, below)) h.1)

pub Numbered-IsSortedBy :
    (n : ℕ) (log : List LedgerEntry) → Numbered n log → IsSortedBy entry_leb log
Numbered-IsSortedBy n [] h = tt
Numbered-IsSortedBy n (e ∷ log) h = (
  Numbered-later (suc n) (suc n) e log h.0 (omega arith) h.1,
  Numbered-IsSortedBy (suc n) log h.1,
)

-- The entries are numbered 1, 2, 3 and so on, and both maps answer as a search of them.
pub record IsIndexed (s : MemoryStore) : Type 0 where
  pub by_id : Indexes (λ e. e.spec.entry_id) s.entry_by_id s.entries
  pub by_key : Indexes (λ e. ledger_key_from_spec e.spec) s.entry_keys s.entries
  pub numbered : Numbered 0 s.entries

pub write_entry-IsIndexed :
    (e : LedgerEntry) (s : MemoryStore)
    → get e.spec.entry_id s.entry_by_id ≡ none
    → get (ledger_key_from_spec e.spec) s.entry_keys ≡ none
    → e.sequence ≡ pos (suc (length s.entries))
    → IsIndexed s
    → IsIndexed (write_entry e s)
write_entry-IsIndexed e s id key at h = record {
  by_id = put-Indexes (λ x. x.spec.entry_id) s.entry_by_id s.entries e id h.by_id;
  by_key = put-Indexes (λ x. ledger_key_from_spec x.spec) s.entry_keys s.entries e key h.by_key;
  numbered = Numbered-snoc 0 s.entries e (at ∙ ap (λ m. pos (suc m)) (omega arith)) h.numbered;
}
