-- ===== src/Store/Contract.antt =====
-- What a publication that succeeds does to the references.
use rethinking_git.Base.{
  ℕ, ◌+◌, ◌^◌, ◌<◌, true, false, not, List, [], ◌∷◌, ◌≡◌, inl, inr, refl, sym, subst, ap, ◌∙◌,
  Option, none, some, Result, ok, err, arith, >>=-ok, ensure-ok, Result-cases, In,
}
use rethinking_git.Base.Order.{same, same_refl, eq_of_same, nat_ord}
use rethinking_git.Base.Map
use rethinking_git.Base.Map.{Map, get-insert}
use rethinking_git.Base.Set
use rethinking_git.Objects.Id.{ObjectId}
use rethinking_git.Objects.Reference.{ReferenceKey, key_ord, id_ord, same_kind, expected_kind}
use rethinking_git.Store.Model.{
  DecodeObjectError, StoredObject, MemorySnapshot, Publication, PublicationValidator, RefUpdate,
  PublicationObject, PublicationCandidate, ReferenceState, StoreError, duplicate_reference_update,
  reference_kind, reference_conflict,
}
use rethinking_git.Store.Memory.{is_expected, check_expected, next_state, visible_object}
use rethinking_git.Store.Values.{reference_identity_matches}
use rethinking_git.Store.Publish.{
  Staged, check_updates, update_references, stage, stage_object, stage_objects, prepare, commit,
  publish, next_revision,
}
use rethinking_git.Store.Staging.{parts}

-- What `check_updates` has tested of one update.
pub record Checked (state staged : MemorySnapshot) (keys : List ReferenceKey) (u : RefUpdate)
    : Type 0 where
  pub fresh : Set.contains u.key keys ≡ false
  pub expected : is_expected u.expected (Map.get u.key state.references) ≡ true
  pub target : StoredObject
  pub visible : visible_object staged u.target ≡ ok target
  pub kind : same_kind target.kind (expected_kind u.key) ≡ true

pub check_first :
    (state staged : MemorySnapshot) (keys : List ReferenceKey) (u : RefUpdate) (us : List RefUpdate)
    → check_updates state staged keys (u ∷ us) ≡ ok tt
    → Checked state staged keys u × (check_updates state staged (Set.insert u.key keys) us ≡ ok tt)
unfolding check_updates check_expected
check_first state staged keys u us h =
    let (fresh, h₁) = ensure-ok (not (Set.contains u.key keys)) duplicate_reference_update _ h in
    let (expected, h₂) =
      ensure-ok (is_expected u.expected (Map.get u.key state.references)) reference_conflict _ h₁ in
    let (target, visible, h₃) = >>=-ok (visible_object staged u.target) _ h₂ in
    let (kind, h₄) = ensure-ok (same_kind target.kind (expected_kind u.key)) reference_kind _ h₃ in
    let (_, h₅) = ensure-ok (reference_identity_matches u.key target) reference_kind _ h₄ in
    (
      record {
        fresh = ground arith;
        expected = expected;
        target = target;
        visible = visible;
        kind = kind;
      },
      h₅,
    )

pub check_all :
    (state staged : MemorySnapshot) (keys : List ReferenceKey) (us : List RefUpdate) (u : RefUpdate)
    → check_updates state staged keys us ≡ ok tt
    → In u us
    → Checked state staged keys u
check_all state staged keys [] u h m = absurd m
check_all state staged keys (v ∷ us) u h (inl e) =
    subst (λ w. Checked state staged keys w) (sym e) ((check_first state staged keys v us h).0)
check_all state staged keys (v ∷ us) u h (inr m) =
    let later =
      check_all state staged (Set.insert v.key keys) us u ((check_first state staged keys v us h).1)
        m in
    record {
      fresh = ground (arith, later.fresh, Set.contains-insert u.key v.key keys);
      expected = later.expected;
      target = later.target;
      visible = later.visible;
      kind = later.kind;
    }

not_inserted :
    (j k : ReferenceKey) (s : List ReferenceKey)
    → Set.contains j (Set.insert k s) ≡ false
    → same k j ≡ false
not_inserted j k s h = ground (arith, Set.contains-insert j k s, eq_of_same k j, same_refl j)

-- A key that no update has keeps its state.
update_references-other :
    (state : MemorySnapshot) (p : Publication) (us : List RefUpdate)
    (refs refs' : Map ReferenceKey ReferenceState) (k : ReferenceKey)
    → update_references state p us refs ≡ ok refs'
    → ((u : RefUpdate) → In u us → same k u.key ≡ false)
    → Map.get k refs' ≡ Map.get k refs
unfolding update_references
update_references-other state p [] refs refs' k h n = ground arith
update_references-other state p (u ∷ us) refs refs' k h n =
    let (next, _, h') = >>=-ok (next_state state p u) _ h in
    let rest =
      update_references-other state p us (Map.insert u.key next refs) refs' k h'
        (λ v m. n v (inr m)) in
    ground (arith, rest, get-insert k u.key next refs, n u (inl refl))

-- An update writes the next state of its reference.
update_references-written :
    (state staged : MemorySnapshot) (p : Publication) (keys : List ReferenceKey)
    (us : List RefUpdate) (refs refs' : Map ReferenceKey ReferenceState) (u : RefUpdate)
    → check_updates state staged keys us ≡ ok tt
    → update_references state p us refs ≡ ok refs'
    → In u us
    → (next : ReferenceState) × (next_state state p u ≡ ok next) × (Map.get u.key refs' ≡ some next)
unfolding update_references
update_references-written state staged p keys [] refs refs' u c h m = absurd m
update_references-written state staged p keys (v ∷ us) refs refs' u c h (inl e) =
    let (next, of_next, h') = >>=-ok (next_state state p v) _ h in
    let later = (check_first state staged keys v us c).1 in
    let apart : (w : RefUpdate) → In w us → same v.key w.key ≡ false = λ w m.
      not_inserted w.key v.key keys
        (check_all state staged (Set.insert v.key keys) us w later m).fresh in
    let rest =
      update_references-other state p us (Map.insert v.key next refs) refs' v.key h' apart in
    let here : Map.get v.key refs' ≡ some next =
      ground (arith, rest, get-insert v.key v.key next refs, same_refl v.key) in
    subst
      (λ w. (n : ReferenceState) × (next_state state p w ≡ ok n) × (Map.get w.key refs' ≡ some n))
      (sym e) (next, of_next, here)
update_references-written state staged p keys (v ∷ us) refs refs' u c h (inr m) =
    let (next, _, h') = >>=-ok (next_state state p v) _ h in
    update_references-written state staged p (Set.insert v.key keys) us (Map.insert v.key next refs)
      refs' u ((check_first state staged keys v us c).1) h' m

-- The generation after the state that a reference has.
abbrev pub following : Option ReferenceState → ℕ
following none = 0
following (some old) = old.generation + 1

next_state-following :
    (s : MemorySnapshot) (p : Publication) (u : RefUpdate) (next : ReferenceState)
    → next_state s p u ≡ ok next
    → (next ≡ record {
      target = u.target;
      generation = following (Map.get u.key s.references);
      operation = p.operation;
    })
      × (following (Map.get u.key s.references) < 2 ^ 64)
unfolding next_state
next_state-following s p u next h = ground arith

-- What a publication promises of one of its updates: the reference had the expected state, its target is
-- a visible object of the right kind, and its state is the target with the generation after the old
-- one, or 0 for a new reference.
pub record Published (p : Publication) (s t : MemorySnapshot) (u : RefUpdate) : Type 0 where
  pub expected : is_expected u.expected (Map.get u.key s.references) ≡ true
  pub fits : following (Map.get u.key s.references) < 2 ^ 64
  pub written :
      Map.get u.key t.references
      ≡ some (record {
        target = u.target;
        generation = following (Map.get u.key s.references);
        operation = p.operation;
      })
  pub target : StoredObject
  pub visible : visible_object t u.target ≡ ok target
  pub kind : same_kind target.kind (expected_kind u.key) ≡ true

module _ (decode : ObjectId → List ℕ → Result DecodeObjectError StoredObject) where
  pub stage-Published :
      (p : Publication) (s t : MemorySnapshot) (u : RefUpdate)
      → stage decode p s ≡ ok t
      → In u p.updates
      → Published p s t u
  unfolding visible_object
  stage-Published p s t u h m =
      let found = parts decode p s t h in
      let checked = check_all s found.staged [] p.updates u found.of_updates m in
      let (next, of_next, written) =
        update_references-written s found.staged p [] p.updates found.staged.references
          found.references u found.of_updates found.of_references m in
      let (value, fits) = next_state-following s p u next of_next in
      subst (λ w. Published p s w u) (sym found.result)
        (record {
          expected = checked.expected;
          fits = fits;
          written = written ∙ ap some value;
          target = checked.target;
          visible = checked.visible;
          kind = checked.kind;
        })

  stage_object-references :
      (c : PublicationObject) (s t : MemorySnapshot)
      → stage_object decode c s ≡ ok t
      → t.references ≡ s.references
  unfolding stage_object
  stage_object-references c s t h = ground arith

  stage_objects-references :
      (cs : List PublicationObject) (s t : MemorySnapshot)
      → stage_objects decode cs s ≡ ok t
      → t.references ≡ s.references
  unfolding stage_objects
  stage_objects-references [] s t h = ground arith
  stage_objects-references (c ∷ cs) s t h =
      let (u, e, h') = >>=-ok (stage_object decode c s) _ h in
      stage_objects-references cs u t h' ∙ stage_object-references c s u e

  stage-other :
      (p : Publication) (s t : MemorySnapshot) (k : ReferenceKey)
      → stage decode p s ≡ ok t
      → ((u : RefUpdate) → In u p.updates → same k u.key ≡ false)
      → Map.get k t.references ≡ Map.get k s.references
  stage-other p s t k h n =
      let found = parts decode p s t h in
      let kept =
        update_references-other s p p.updates found.staged.references found.references k
          found.of_references n in
      ap (λ w. Map.get k w.references) found.result
      ∙ (kept ∙ ap (Map.get k) (stage_objects-references p.objects s found.staged found.of_objects))

  prepare-stage :
      (validate : PublicationValidator) (p : Publication) (s : MemorySnapshot) (staged : Staged)
      → prepare decode validate p s ≡ ok staged
      → (stage decode p s ≡ ok staged.snapshot) × (staged.next_revision ≡ s.revision + 1)
  unfolding prepare next_revision
  prepare-stage validate p s staged h =
      let (r, e, h₁) = >>=-ok (next_revision s) _ h in
      let (t, e', h₂) = >>=-ok (stage decode p s) _ h₁ in
      let candidate : PublicationCandidate = record {
        publication = p;
        objects = t.objects;
        references = t.references;
      } in
      let (_, _, h₃) = >>=-ok (validate candidate) _ h₂ in (e' ∙ ap ok (ground arith), ground arith)

  publish-prepared :
      (validate : PublicationValidator) (p : Publication) (base s : MemorySnapshot)
      (staged : Staged)
      → prepare decode validate p base ≡ ok staged
      → publish decode validate p base s ≡ commit p staged s
  unfolding publish commit
  publish-prepared validate p base s staged e = rw (e, publish)

  publish-refused :
      (validate : PublicationValidator) (p : Publication) (base s : MemorySnapshot)
      (error : StoreError)
      → prepare decode validate p base ≡ err error
      → publish decode validate p base s ≡ (err error, s)
  unfolding publish
  publish-refused validate p base s error e = rw (e, publish)

  refused-differs :
      (error : StoreError) (results : List ReferenceState) (s t : MemorySnapshot)
      (r : Result StoreError (List ReferenceState) × MemorySnapshot)
      → r ≡ (err error, s)
      → r ≡ (ok results, t)
      → ⊥
  refused-differs error results s t r e h = ground arith

  commit-ok :
      (p : Publication) (staged : Staged) (s t : MemorySnapshot) (results : List ReferenceState)
      → commit p staged s ≡ (ok results, t)
      → t ≡ record staged.snapshot { revision = staged.next_revision }
  unfolding commit
  commit-ok p staged s t results h = ground arith

  -- The state that a publication with no interleaving leaves is the staged one with the next revision.
  publish-stage :
      (validate : PublicationValidator) (p : Publication) (s t : MemorySnapshot)
      (results : List ReferenceState)
      → publish decode validate p s s ≡ (ok results, t)
      → (staged : MemorySnapshot) × (stage decode p s ≡ ok staged)
        × (t ≡ record staged { revision = s.revision + 1 })
  publish-stage validate p s t results h = elim (Result-cases (prepare decode validate p s)) [
    | inl (staged, e) ↦
        let (e', r) = prepare-stage validate p s staged e in
        (
          staged.snapshot,
          e',
          commit-ok p staged s t results (sym (publish-prepared validate p s s staged e) ∙ h)
              ∙ ap (λ n. record staged.snapshot { revision = n }) r,
        )
    | inr (error, e) ↦
        absurd (refused-differs error results s t _ (publish-refused validate p s s error e) h)
  ]

  -- A publication that succeeds, with no other change between its critical sections, keeps its promise
  -- for each of its updates: the reference had the expected state, and now it has the target, the
  -- operation and the next generation, which fits 64 bits; the target is visible and of the right kind.
  pub publish-updates :
      (validate : PublicationValidator) (p : Publication) (s t : MemorySnapshot)
      (results : List ReferenceState) (u : RefUpdate)
      → publish decode validate p s s ≡ (ok results, t)
      → In u p.updates
      → Published p s t u
  unfolding visible_object
  publish-updates validate p s t results u h m =
      let (staged, e, same) = publish-stage validate p s t results h in
      let found = stage-Published p s staged u e m in
      subst (λ w. Published p s w u) (sym same)
        (record {
          expected = found.expected;
          fits = found.fits;
          written = found.written;
          target = found.target;
          visible = found.visible;
          kind = found.kind;
        })

  -- The references that no update names keep their state when a publication succeeds, with no other
  -- change between its critical sections.
  pub publish-others :
      (validate : PublicationValidator) (p : Publication) (s t : MemorySnapshot)
      (results : List ReferenceState) (k : ReferenceKey)
      → publish decode validate p s s ≡ (ok results, t)
      → ((u : RefUpdate) → In u p.updates → same k u.key ≡ false)
      → Map.get k t.references ≡ Map.get k s.references
  publish-others validate p s t results k h n =
      let (staged, e, same) = publish-stage validate p s t results h in
      ap (λ w. Map.get k w.references) same ∙ stage-other p s staged k e n
