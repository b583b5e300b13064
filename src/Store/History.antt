-- ===== src/Store/History.antt =====
-- crates/rgit-store/src/memory.rs: the runs of a store that several threads share. A publication is
-- in flight between its two critical sections; the operations of other threads come between.
pub mod Grows
pub mod Serial
pub mod Objects
pub mod References
use rethinking_git.Base.{ℕ, List, [], ◌∷◌, ◌++◌, ◌≡◌, Result, ok}
use rethinking_git.Objects.Id.{ObjectId}
use rethinking_git.Store.Model.{
  DecodeObjectError, StoredObject, MemorySnapshot, Publication, PublicationValidator, empty,
}
use rethinking_git.Store.Publish.{Staged, put, mark_promised, quarantine, prepare, commit}

pub record System : Type 0 where
  pub store : MemorySnapshot
  pub in_flight : List (Publication × Staged)

abbrev pub initial : System
initial = record { store = empty; in_flight = [] }

module _ (decode : ObjectId → List ℕ → Result DecodeObjectError StoredObject) where
  -- One critical section.
  pub data Step : System → System → Type 0 where
    puts :
        (id : ObjectId) (bytes : List ℕ) (sys : System)
        → Step sys (record sys { store = (put decode id bytes sys.store).1 })
    marks :
        (id : ObjectId) (sys : System)
        → Step sys (record sys { store = (mark_promised id sys.store).1 })
    quarantines :
        (id : ObjectId) (sys : System)
        → Step sys (record sys { store = (quarantine id sys.store).1 })
    begins :
        (validate : PublicationValidator) (publication : Publication) (staged : Staged)
        (sys : System)
        → prepare decode validate publication sys.store ≡ ok staged
        → Step sys (record sys { in_flight = (publication, staged) ∷ sys.in_flight })
    ends :
        (publication : Publication) (staged : Staged) (before after : List (Publication × Staged))
        (store : MemorySnapshot)
        → Step
            (record { store = store; in_flight = before ++ (publication, staged) ∷ after })
            (record { store = (commit publication staged store).1; in_flight = before ++ after })

  pub data Reach : System → System → Type 0 where
    stays : (sys : System) → Reach sys sys
    steps : {a b c : System} → Reach a b → Step b c → Reach a c
