-- ===== src/Store/History/Serial.antt =====
-- Publications that are in flight at the same time.
use rethinking_git.Base.{
  ℕ, ◌≤◌, List, ◌∷◌, ◌++◌, ◌≡◌, inl, inr, refl, sym, subst, Result, ok, arith, ==_iff, In,
  In-append,
}
use rethinking_git.Objects.Id.{ObjectId}
use rethinking_git.Store.Model.{
  DecodeObjectError, StoredObject, MemorySnapshot, Publication, PublicationValidator,
  ReferenceState,
}
use rethinking_git.Store.Publish.{Staged, prepare, commit, publish}
use rethinking_git.Store.History.{
  System, initial, Step, puts, marks, quarantines, begins, ends, Reach, stays, steps,
}
use rethinking_git.Store.History.Grows.{
  Grows, mark_promised-Grows, quarantine-Grows, put-Grows, prepare-revision, commit-Grows,
}

In-remove :
    {A : Type 0} (x y : A) (before after : List A)
    → In x (before ++ after)
    → In x (before ++ y ∷ after)
In-remove x y before after m =
    ground (arith, In-append x before after, In-append x before (y ∷ after))

module _ (decode : ObjectId → List ℕ → Result DecodeObjectError StoredObject) where
  -- The publication was prepared from an earlier state, or from this one if the revision says so.
  abbrev pub Prepared : MemorySnapshot → Publication × Staged → Type 0
  Prepared s (p, staged) =
      (validate : PublicationValidator) × (base : MemorySnapshot) × (prepare decode validate p base
        ≡ ok staged)
      × (base.revision ≤ s.revision)
      × (base.revision ≡ s.revision → base ≡ s)

  abbrev pub IsConsistent : System → Type 0
  IsConsistent sys = (x : Publication × Staged) → In x sys.in_flight → Prepared sys.store x

  Prepared-Grows :
      (s t : MemorySnapshot) (x : Publication × Staged) → Grows s t → Prepared s x → Prepared t x
  Prepared-Grows s t x (inl e) h = subst (λ u. Prepared u x) e h
  Prepared-Grows s t x (inr l) (validate, base, h, b, same) =
      (validate, base, h, ground arith, λ e. ground arith)

  IsConsistent-Grows :
      (s t : MemorySnapshot) (xs : List (Publication × Staged))
      → Grows s t
      → IsConsistent (record { store = s; in_flight = xs })
      → IsConsistent (record { store = t; in_flight = xs })
  IsConsistent-Grows s t xs g h = λ x m. Prepared-Grows s t x g (h x m)

  pub Step-IsConsistent : (a b : System) → Step decode a b → IsConsistent a → IsConsistent b
  Step-IsConsistent a b (puts id bytes sys) h =
      IsConsistent-Grows _ _ _ (put-Grows decode id bytes sys.store) h
  Step-IsConsistent a b (marks id sys) h =
      IsConsistent-Grows _ _ _ (mark_promised-Grows id sys.store) h
  Step-IsConsistent a b (quarantines id sys) h =
      IsConsistent-Grows _ _ _ (quarantine-Grows id sys.store) h
  Step-IsConsistent a b (begins validate p staged sys e) h = λ x m. elim m [
    | inl same ↦
        subst (λ y. Prepared sys.store y) (sym same)
          (validate, sys.store, e, omega arith, λ _. refl)
    | inr later ↦ h x later
  ]
  Step-IsConsistent a b (ends p staged before after s) h = λ x m.
      let (validate, base, e, _, _) =
        h (p, staged) ((In-append (p, staged) before ((p, staged) ∷ after)).1 (inr (inl refl))) in
      Prepared-Grows s ((commit p staged s).1) x (commit-Grows decode validate p base s staged e)
        (h x (In-remove x (p, staged) before after m))

  pub Reach-IsConsistent : (a b : System) → Reach decode a b → IsConsistent a → IsConsistent b
  Reach-IsConsistent a b (stays sys) h = h
  Reach-IsConsistent a b (steps r s) h = Step-IsConsistent _ b s (Reach-IsConsistent a _ r h)

  pub initial-IsConsistent : IsConsistent initial
  initial-IsConsistent x n = absurd n

  -- A staged publication that commits was prepared from the state that it finds.
  pub commit-current :
      (s : MemorySnapshot) (p : Publication) (staged : Staged) (results : List ReferenceState)
      → Prepared s (p, staged)
      → (commit p staged s).0 ≡ ok results
      → (validate : PublicationValidator) × (prepare decode validate p s ≡ ok staged)
  unfolding commit
  commit-current s p staged results (validate, base, h, b, same) e =
      let at_base = prepare-revision decode validate p base staged h in
      (
        validate,
        subst (λ s. prepare decode validate p s ≡ ok staged)
            (same (ground (arith, at_base, ==_iff s.revision staged.base_revision, e))) h,
      )

  -- A publication that commits after any steps of other threads does what it would do if they had all
  -- come before it: prepared again in the state that it finds, it gives the same results and the same
  -- new state.
  pub commit-serial :
      (sys : System) (p : Publication) (staged : Staged) (results : List ReferenceState)
      → Reach decode initial sys
      → In (p, staged) sys.in_flight
      → (commit p staged sys.store).0 ≡ ok results
      → (validate : PublicationValidator) × (publish decode validate p sys.store sys.store
          ≡ commit p staged sys.store)
  unfolding publish commit
  commit-serial sys p staged results r m e =
      let now = Reach-IsConsistent initial sys r initial-IsConsistent (p, staged) m in
      let (validate, current) = commit-current sys.store p staged results now e in
      (validate, rw (current, publish))
