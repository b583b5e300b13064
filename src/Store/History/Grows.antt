-- ===== src/Store/History/Grows.antt =====
-- Every change of the state raises its revision.
use rethinking_git.Base.{ℕ, ◌+◌, ◌<◌, List, ◌≡◌, ◌⊎◌, Result, ok, arith, ==_iff}
use rethinking_git.Objects.Id.{ObjectId}
use rethinking_git.Store.Model.{
  DecodeObjectError, StoredObject, MemorySnapshot, Publication, PublicationValidator,
}
use rethinking_git.Store.Publish.{
  Staged, put, mark_promised, quarantine, prepare, commit, next_revision,
}

abbrev pub Grows : MemorySnapshot → MemorySnapshot → Type 0
Grows s t = (s ≡ t) ⊎ (s.revision < t.revision)

pub mark_promised-Grows : (id : ObjectId) (s : MemorySnapshot) → Grows s ((mark_promised id s).1)
unfolding mark_promised next_revision
mark_promised-Grows id s = ground arith

pub quarantine-Grows : (id : ObjectId) (s : MemorySnapshot) → Grows s ((quarantine id s).1)
unfolding quarantine next_revision
quarantine-Grows id s = ground arith

module _ (decode : ObjectId → List ℕ → Result DecodeObjectError StoredObject) where
  pub put-Grows :
      (id : ObjectId) (bytes : List ℕ) (s : MemorySnapshot) → Grows s ((put decode id bytes s).1)
  unfolding put next_revision
  put-Grows id bytes s = ground arith

  pub prepare-revision :
      (validate : PublicationValidator) (p : Publication) (s : MemorySnapshot) (staged : Staged)
      → prepare decode validate p s ≡ ok staged
      → (staged.base_revision ≡ s.revision) × (staged.next_revision ≡ s.revision + 1)
  unfolding prepare next_revision
  prepare-revision validate p s staged h = ground arith

  pub commit-Grows :
      (validate : PublicationValidator) (p : Publication) (base s : MemorySnapshot)
      (staged : Staged)
      → prepare decode validate p base ≡ ok staged
      → Grows s ((commit p staged s).1)
  unfolding commit
  commit-Grows validate p base s staged h =
      ground
        (arith, prepare-revision validate p base staged h, ==_iff s.revision staged.base_revision)
