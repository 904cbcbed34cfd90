-- ===== src/Resolution/Store/Versions.antt =====
-- apps/agents/customer_resolution/state_store.py: the version counter of a case, and saves with an
-- expected version.
use decentralized_agentic_re.Prelude.{
  ℕ, suc, ◌≤◌, ◌≡◌, Bool, true, false, not, Option, none, some, arith, inl, inr, List, [], ◌∷◌, ltb,
  ==_refl,
}
use decentralized_agentic_re.Prelude.Dict.{Uuid, Dict, lookup, insert, lookup-insert}
use decentralized_agentic_re.Prelude.Exec.{ok, err, save_conflict}
use decentralized_agentic_re.Resolution.Models.{ResolutionCase}
use decentralized_agentic_re.Resolution.Store.{
  CaseStore, new_case, save, stale, next_version, park_billing_result, park_risk_result,
}
use decentralized_agentic_re.Resolution.Store.Operations.{
  Op, creates, saves, moves, adds, applies, claims, fails, parks_billing, parks_risk, dates,
  perform, perform_all, saved, save_cases,
}
use decentralized_agentic_re.Resolution.Store.Effects.{
  Effect, same, fresh, changed, get_or_create-Effect, add_pending_task-Effect, transition-Effect,
  apply_result-Effect, claim_decision-Effect, mark_slot_failed-Effect, set_deadline-Effect,
}

-- `k` is stored, with a version of at least `v`.
abbrev pub reached : Uuid → ℕ → Dict ResolutionCase → Bool
reached k v d = elim (lookup k d) [ none ↦ false | some c ↦ not (ltb c.version v) ]

reached-insert :
    (k j : Uuid) (v : ℕ) (c : ResolutionCase) (d : Dict ResolutionCase)
    → reached k v d ≡ true
    → (k ≡ j → v ≤ c.version)
    → reached k v (insert j c d) ≡ true
unfolding lookup insert
reached-insert k j v c d h up = ground (arith, lookup-insert j k c d, up)

Effect-reached :
    (k : Uuid) (v : ℕ) {s s' : CaseStore}
    → Effect s s'
    → reached k v s.cases ≡ true
    → reached k v s'.cases ≡ true
Effect-reached k v (same e) h = rw e h
Effect-reached k v {s} (fresh n f e) h =
    rw e (reached-insert k n.case_id v (new_case n) s.cases h λ q. ground (arith, q))
Effect-reached k v {s} (changed id old new f up e) h =
    rw e (reached-insert k id v new s.cases h λ q. ground (arith, q, up.later_version))

module _ (k : Uuid) (v : ℕ) (s : CaseStore) (h : reached k v s.cases ≡ true) where
  save-reached :
      (c : ResolutionCase) (expected : Option ℕ) (now : ℕ)
      → reached k v (save c expected now s).1.cases ≡ true
  unfolding next_version
  save-reached c expected now = elim (save_cases c expected now s) [
    | inl e ↦ rw e h
    | inr e ↦ rw e (reached-insert k c.case_id v (saved c now s) s.cases h λ q. ground arith)
  ]

  perform-reached : (o : Op) → reached k v (perform o s).cases ≡ true
  unfolding perform park_billing_result park_risk_result
  perform-reached (creates n) = Effect-reached k v (get_or_create-Effect s n) h
  perform-reached (saves c expected now) = save-reached c expected now
  perform-reached (moves id to now) = Effect-reached k v (transition-Effect s id to now) h
  perform-reached (adds id task) = Effect-reached k v (add_pending_task-Effect s id task) h
  perform-reached (applies id task f now) =
      Effect-reached k v (apply_result-Effect s id task f now) h
  perform-reached (claims id now) = Effect-reached k v (claim_decision-Effect s id now) h
  perform-reached (fails id task b reason now) =
      Effect-reached k v (mark_slot_failed-Effect s id task b reason now) h
  perform-reached (parks_billing x p) = h
  perform-reached (parks_risk x p) = h
  perform-reached (dates id at) = Effect-reached k v (set_deadline-Effect s id at) h

-- Once a case is stored with a version of at least `v`, it stays stored with a version of at least
-- `v` in any sequence of the store's operations, those that raise included.
pub perform_all-reached :
    (k : Uuid) (v : ℕ) (os : List Op) (s : CaseStore)
    → reached k v s.cases ≡ true
    → reached k v (perform_all os s).cases ≡ true
unfolding perform_all
perform_all-reached k v [] s h = h
perform_all-reached k v (o ∷ os) s h =
    perform_all-reached k v os (perform o s) (perform-reached k v s h o)

save_matching :
    (c e : ResolutionCase) (now : ℕ) (s : CaseStore)
    → lookup c.case_id s.cases ≡ some e
    → (save c (some e.version) now s).0 ≡ ok (saved c now s)
unfolding save stale next_version
save_matching c e now s h = ground (arith, h, ==_refl e.version)

save_advances :
    (c e : ResolutionCase) (now : ℕ) (s : CaseStore)
    → lookup c.case_id s.cases ≡ some e
    → reached c.case_id (suc e.version) (save c (some e.version) now s).1.cases ≡ true
unfolding save stale next_version
save_advances c e now s h =
    ground (arith, h, ==_refl e.version, lookup-insert c.case_id c.case_id (saved c now s) s.cases)

save_behind :
    (d : ResolutionCase) (v later : ℕ) (s : CaseStore)
    → reached d.case_id (suc v) s.cases ≡ true
    → save d (some v) later s ≡ (err save_conflict, s)
unfolding save stale
save_behind d v later s h = ground arith

-- Two writers have read the stored case `e`. The save of the first, with the version it read, goes
-- through. After any operations of the store, the save of the second with that version raises
-- `CaseSaveConflict` and changes nothing.
pub save_conflicts :
    (c d e : ResolutionCase) (now later : ℕ) (s : CaseStore) (between : List Op)
    → lookup c.case_id s.cases ≡ some e
    → d.case_id ≡ c.case_id
    → ((save c (some e.version) now s).0 ≡ ok (saved c now s))
      × (save d (some e.version) later (perform_all between (save c (some e.version) now s).1)
          ≡ (err save_conflict, perform_all between (save c (some e.version) now s).1))
save_conflicts c d e now later s between h same_case =
    let ahead =
      perform_all-reached c.case_id (suc e.version) between (save c (some e.version) now s).1
        (save_advances c e now s h) in
    (
      save_matching c e now s h,
      save_behind d e.version later (perform_all between (save c (some e.version) now s).1)
          (rw same_case ahead),
    )
