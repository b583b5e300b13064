-- ===== src/Store/History/References.antt =====
-- What a publication does to the references when other threads come between its critical sections.
use rethinking_git.Base.{
  ℕ, false, List, ◌≡◌, inl, inr, ap, ◌∙◌, Result, ok, err, arith, In, Result-cases,
}
use rethinking_git.Base.Order.{same}
use rethinking_git.Base.Map
use rethinking_git.Objects.Id.{ObjectId}
use rethinking_git.Objects.Reference.{ReferenceKey, key_ord}
use rethinking_git.Store.Model.{
  DecodeObjectError, StoredObject, MemorySnapshot, Publication, RefUpdate, ReferenceState,
  StoreError, reference_conflict,
}
use rethinking_git.Store.Memory.{is_expected}
use rethinking_git.Store.Publish.{Staged, commit}
use rethinking_git.Store.Contract.{publish-updates, publish-others}
use rethinking_git.Store.History.{System, initial, Reach}
use rethinking_git.Store.History.Serial.{commit-serial}

-- A second critical section that fails found another revision.
commit-refused :
    (p : Publication) (staged : Staged) (s : MemorySnapshot) (error : StoreError)
    → (commit p staged s).0 ≡ err error
    → commit p staged s ≡ (err reference_conflict, s)
unfolding commit
commit-refused p staged s error h = ground arith

pair :
    (p : Publication) (staged : Staged) (s : MemorySnapshot) (results : List ReferenceState)
    → (commit p staged s).0 ≡ ok results
    → commit p staged s ≡ (ok results, (commit p staged s).1)
pair p staged s results h = ap (λ r. (r, (commit p staged s).1)) h

module _ (decode : ObjectId → List ℕ → Result DecodeObjectError StoredObject) where
  -- At any point of any run, the end of a publication that is in flight changes no reference that
  -- none of its updates names, whether it succeeds or is refused.
  pub commit_others :
      (sys : System) (p : Publication) (staged : Staged) (k : ReferenceKey)
      → Reach decode initial sys
      → In (p, staged) sys.in_flight
      → ((u : RefUpdate) → In u p.updates → same k u.key ≡ false)
      → Map.get k (commit p staged sys.store).1.references ≡ Map.get k sys.store.references
  commit_others sys p staged k r m n =
      let s = sys.store in
      elim (Result-cases (commit p staged s).0) [
        | inl (results, e) ↦
            let (validate, serial) = commit-serial decode sys p staged results r m e in
            publish-others decode validate p s (commit p staged s).1 results k
              (serial ∙ pair p staged s results e) n
        | inr (error, e) ↦ ap (λ w. Map.get k w.1.references) (commit-refused p staged s error e)
      ]

  -- At any point of any run, a publication in flight that expects of a reference another state than
  -- the reference has by then is refused as a conflict, and the store stays as it is.
  pub commit_stale :
      (sys : System) (p : Publication) (staged : Staged) (u : RefUpdate)
      → Reach decode initial sys
      → In (p, staged) sys.in_flight
      → In u p.updates
      → is_expected u.expected (Map.get u.key sys.store.references) ≡ false
      → commit p staged sys.store ≡ (err reference_conflict, sys.store)
  commit_stale sys p staged u r m i stale =
      let s = sys.store in
      elim (Result-cases (commit p staged s).0) [
        | inl (results, e) ↦
            let (validate, serial) = commit-serial decode sys p staged results r m e in
            let found =
              publish-updates decode validate p s (commit p staged s).1 results u
                (serial ∙ pair p staged s results e) i in
            absurd (ground (arith, found.expected))
        | inr (error, e) ↦ commit-refused p staged s error e
      ]
