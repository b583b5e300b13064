-- ===== src/Store/History/Objects.antt =====
-- What the objects of a store are, through every run.
use rethinking_git.Base.{
  ℕ, none, some, List, [], ◌∷◌, ◌≡◌, ◌⊎◌, inl, inr, refl, sym, subst, Result, ok, arith, >>=-ok,
  Bool-cases, ◌==◌, In-append, ap,
}
use rethinking_git.Base.Order.{same, eq_of_same}
use rethinking_git.Base.Map
use rethinking_git.Base.Map.{Map, get-insert}
use rethinking_git.Objects.Id.{ObjectId}
use rethinking_git.Objects.Reference.{id_ord}
use rethinking_git.Store.Model.{
  DecodeObjectError, StoredObject, MemorySnapshot, Publication, PublicationObject,
  PublicationValidator,
}
use rethinking_git.Store.Publish.{
  Staged, collect_results, put, mark_promised, quarantine, prepare, commit, stage_object,
  stage_objects, stage, next_revision,
}
use rethinking_git.Store.Staging.{parts}
use rethinking_git.Store.History.Serial.{
  Prepared, IsConsistent, commit-current, Reach-IsConsistent, initial-IsConsistent,
}
use rethinking_git.Store.History.{
  System, initial, Step, puts, marks, quarantines, begins, ends, Reach, stays, steps,
}

-- Every object of `s` is in `t`, unchanged.
abbrev pub Keeps : Map ObjectId StoredObject → Map ObjectId StoredObject → Type 0
Keeps s t = (id : ObjectId) (o : StoredObject) → Map.get id s ≡ some o → Map.get id t ≡ some o

module _ (decode : ObjectId → List ℕ → Result DecodeObjectError StoredObject) where
  -- Every object is what its bytes decode to, under its identifier.
  abbrev pub AreVerified : Map ObjectId StoredObject → Type 0
  AreVerified m =
      (id : ObjectId) (o : StoredObject)
      → Map.get id m ≡ some o
      → (bytes : List ℕ) × (decode id bytes ≡ ok o)

  -- What an operation may do to the objects.
  abbrev Extends : Map ObjectId StoredObject → Map ObjectId StoredObject → Type 0
  Extends s t = Keeps s t × (AreVerified s → AreVerified t)

  -- Either nothing changes or one verified object is added under a fresh identifier.
  abbrev Adds : ObjectId → List ℕ → Map ObjectId StoredObject → Map ObjectId StoredObject → Type 0
  Adds id bytes s t =
      (t ≡ s)
      ⊎ (o : StoredObject) × (decode id bytes ≡ ok o)
        × (Map.get id s ≡ none)
        × (t ≡ Map.insert id o s)

  Extends-refl : (s t : Map ObjectId StoredObject) → t ≡ s → Extends s t
  Extends-refl s t e = subst (λ u. Extends s u) (sym e) (λ id o h. h, λ v. v)

  Extends-trans : (s t u : Map ObjectId StoredObject) → Extends s t → Extends t u → Extends s u
  Extends-trans s t u (k, v) (k', v') = (λ id o h. k' id o (k id o h), λ a. v' (v a))

  insert-Extends :
      (id : ObjectId) (bytes : List ℕ) (o : StoredObject) (m : Map ObjectId StoredObject)
      → decode id bytes ≡ ok o
      → Map.get id m ≡ none
      → Extends m (Map.insert id o m)
  insert-Extends id bytes o m d n = (
    λ id' o' h. ground (arith, get-insert id' id o m, eq_of_same id' id),
    λ v id' o' h. elim (Bool-cases (same id' id)) [
      | inl e ↦ (bytes, ground (arith, get-insert id' id o m, eq_of_same id' id))
      | inr e ↦ v id' o' (ground (arith, get-insert id' id o m))
    ],
  )

  Extends-of_Adds :
      (id : ObjectId) (bytes : List ℕ) (s t : Map ObjectId StoredObject)
      → Adds id bytes s t
      → Extends s t
  Extends-of_Adds id bytes s t (inl e) = Extends-refl s t e
  Extends-of_Adds id bytes s t (inr (o, d, n, e)) =
      subst (λ u. Extends s u) (sym e) (insert-Extends id bytes o s d n)

  stage_object-Adds :
      (c : PublicationObject) (s t : MemorySnapshot)
      → stage_object decode c s ≡ ok t
      → Adds c.id c.bytes s.objects t.objects
  unfolding stage_object
  stage_object-Adds c s t h = ground arith

  stage_objects-Extends :
      (cs : List PublicationObject) (s t : MemorySnapshot)
      → stage_objects decode cs s ≡ ok t
      → Extends s.objects t.objects
  unfolding stage_objects
  stage_objects-Extends [] s t h = Extends-refl _ _ (ground arith)
  stage_objects-Extends (c ∷ cs) s t h =
      let (u, e, h') = >>=-ok (stage_object decode c s) _ h in
      Extends-trans s.objects u.objects t.objects
        (Extends-of_Adds c.id c.bytes s.objects u.objects (stage_object-Adds c s u e))
        (stage_objects-Extends cs u t h')

  stage-Extends :
      (p : Publication) (s t : MemorySnapshot)
      → stage decode p s ≡ ok t
      → Extends s.objects t.objects
  stage-Extends p s t h =
      let found = parts decode p s t h in
      Extends-trans s.objects found.staged.objects t.objects
        (stage_objects-Extends p.objects s found.staged found.of_objects)
        (Extends-refl found.staged.objects t.objects (ap (λ u. u.objects) found.result))

  put-Adds :
      (id : ObjectId) (bytes : List ℕ) (s : MemorySnapshot)
      → Adds id bytes s.objects ((put decode id bytes s).1).objects
  unfolding put next_revision
  put-Adds id bytes s = ground arith

  prepare-Extends :
      (validate : PublicationValidator) (p : Publication) (s : MemorySnapshot) (staged : Staged)
      → prepare decode validate p s ≡ ok staged
      → Extends s.objects staged.snapshot.objects
  unfolding prepare
  prepare-Extends validate p s staged h =
      let (r, _, h₁) = >>=-ok (next_revision s) _ h in
      let (t, e, h₂) = >>=-ok (stage decode p s) _ h₁ in
      let (_, _, h₃) =
        >>=-ok
          (validate (record { publication = p; objects = t.objects; references = t.references })) _
          h₂ in
      let same : t ≡ staged.snapshot = ground arith in
      Extends-trans s.objects t.objects staged.snapshot.objects (stage-Extends p s t e)
        (Extends-refl t.objects staged.snapshot.objects (ap (λ u. u.objects) (sym same)))

  commit-Extends :
      (s : MemorySnapshot) (p : Publication) (staged : Staged)
      → Prepared decode s (p, staged)
      → Extends s.objects ((commit p staged s).1).objects
  unfolding commit
  commit-Extends s p staged h = elim (Bool-cases (s.revision == staged.base_revision)) [
    | inl e ↦
        let (validate, current) =
          commit-current decode s p staged (collect_results p.updates staged.snapshot.references) h
            (rw (e, commit)) in
        Extends-trans s.objects staged.snapshot.objects _
          (prepare-Extends validate p s staged current) (Extends-refl _ _ (rw e))
    | inr e ↦ Extends-refl _ _ (rw e)
  ]

  marks-objects :
      (id : ObjectId) (s : MemorySnapshot) → ((mark_promised id s).1).objects ≡ s.objects
  unfolding mark_promised
  marks-objects id s = ground arith

  quarantines-objects :
      (id : ObjectId) (s : MemorySnapshot) → ((quarantine id s).1).objects ≡ s.objects
  unfolding quarantine
  quarantines-objects id s = ground arith

  Step-Extends :
      (a b : System)
      → Step decode a b
      → IsConsistent decode a
      → Extends a.store.objects b.store.objects
  Step-Extends a b (puts id bytes sys) h =
      Extends-of_Adds id bytes _ _ (put-Adds id bytes sys.store)
  Step-Extends a b (marks id sys) h = Extends-refl _ _ (marks-objects id sys.store)
  Step-Extends a b (quarantines id sys) h = Extends-refl _ _ (quarantines-objects id sys.store)
  Step-Extends a b (begins validate p staged sys e) h = Extends-refl _ _ refl
  Step-Extends a b (ends p staged before after s) h =
      commit-Extends s p staged
        (h (p, staged) ((In-append (p, staged) before ((p, staged) ∷ after)).1 (inr (inl refl))))

  Reach-Extends :
      (a b : System)
      → Reach decode a b
      → IsConsistent decode a
      → Extends a.store.objects b.store.objects
  Reach-Extends a b (stays sys) h = Extends-refl _ _ refl
  Reach-Extends a b (steps {b = c} r s) h =
      Extends-trans a.store.objects c.store.objects b.store.objects (Reach-Extends a c r h)
        (Step-Extends c b s (Reach-IsConsistent decode a c r h))

  -- Stored objects are immutable: an object of a reachable state is found, unchanged and under the same
  -- identifier, in every later state, whatever operations of any threads come between.
  pub objects-immutable :
      (a b : System) (id : ObjectId) (o : StoredObject)
      → Reach decode initial a
      → Reach decode a b
      → Map.get id a.store.objects ≡ some o
      → Map.get id b.store.objects ≡ some o
  objects-immutable a b id o r r' h =
      (Reach-Extends a b r' (Reach-IsConsistent decode initial a r (initial-IsConsistent decode))).0
        id o h

  -- Every object of a reachable state is what `decode` returned for its identifier and some bytes.
  pub objects-verified :
      (sys : System) (id : ObjectId) (o : StoredObject)
      → Reach decode initial sys
      → Map.get id sys.store.objects ≡ some o
      → (bytes : List ℕ) × (decode id bytes ≡ ok o)
  unfolding Map.get
  objects-verified sys id o r h =
      (Reach-Extends initial sys r (initial-IsConsistent decode)).1 (λ id' o' n. cc) id o h
