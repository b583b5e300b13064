-- ===== src/Graph/Diff/Runs.antt =====
-- Runs of the diff.
use rethinking_git.Base.{
  arith, ℕ, ◌≡◌, ◌↔◌, refl, List, [], ◌∷◌, Option, some, none, Result, ok, err, In, inl, inr,
}
use rethinking_git.Base.Order.{nat_ord, list_ord}
use rethinking_git.Base.Map
use rethinking_git.Objects.Id.{ObjectId, sha256}
use rethinking_git.Graph.Tree.{TreeEntry, PathKey, PortablePath, PolicyRef, file, regular}
use rethinking_git.Graph.Diff.{diff_input, DiffInput, FileDiff, OpaqueEntryId, diff}
use rethinking_git.Graph.Diff.Correct.{
  IsKeyed, Added, Modified, Deleted, diff-lists, diff_input-IsKeyed,
}
use rethinking_git.Graph.Diff.Symmetry.{diff-swap, diff-opaque_zero, diff-hides}

abbrev blob : ℕ → ObjectId
blob n = record { format_version = 0; algorithm = sha256; digest = n ∷ [] }

abbrev policy : PolicyRef
policy = record { policy_id = 1 ∷ []; version = blob 0 }

abbrev path : ℕ → PortablePath
path name = (name ∷ []) ∷ []

abbrev entry : ℕ → ℕ → TreeEntry
entry name content = record {
  path = path name;
  target = file (blob content) regular;
  policy_ref = policy;
}

-- `a` is changed, `b` deleted and `c` added; one hidden entry changes.
abbrev before : DiffInput
before = record {
  visible = (path 97, entry 97 1) ∷ (path 98, entry 98 1) ∷ [];
  opaque = (7 ∷ [], blob 1) ∷ [];
}

abbrev after : DiffInput
after = record {
  visible = (path 97, entry 97 2) ∷ (path 99, entry 99 1) ∷ [];
  opaque = (7 ∷ [], blob 2) ∷ [];
}

-- The same visible entries as `after`, and nothing hidden.
abbrev after_open : DiffInput
after_open = record after { opaque = [] }

abbrev changes : FileDiff
changes = record {
  added = path 99 ∷ [];
  modified = path 97 ∷ [];
  deleted = path 98 ∷ [];
  opaque_changed = 1;
}

diff_runs : diff before after ≡ ok changes
unfolding diff rethinking_git.Graph.Diff.count_changed rethinking_git.Base.Set.from_list
    rethinking_git.Base.Set.insert rethinking_git.Base.option_eq Map.get
    rethinking_git.Graph.Tree.ObjectId-discrete native.Mathlib.Decide.ℕ_discrete
    rethinking_git.Graph.Diff.diff_loop rethinking_git.Graph.Diff.diff_entry
    rethinking_git.Graph.Tree.TreeEntry-discrete
diff_runs = refl

diff_open : diff before after_open ≡ ok changes
unfolding diff rethinking_git.Graph.Diff.count_changed rethinking_git.Base.Set.from_list
    rethinking_git.Base.Set.insert rethinking_git.Base.option_eq Map.get
    rethinking_git.Graph.Diff.diff_loop rethinking_git.Graph.Diff.diff_entry
    rethinking_git.Graph.Tree.TreeEntry-discrete native.Mathlib.Decide.ℕ_discrete
    rethinking_git.Graph.Tree.ObjectId-discrete
diff_open = refl

-- Names as they are: no case folding.
abbrev as_is : List ℕ → List ℕ
as_is name = name

before_made :
    diff_input as_is
      (entry 98 1 ∷ entry 97 1 ∷ [])
      ((record { id = 7 ∷ []; fingerprint = blob 1 }) ∷ [])
    ≡ ok before
unfolding diff_input Map.get Map.insert rethinking_git.Graph.Tree.first_portable_collision
    rethinking_git.Graph.Tree.place
before_made = refl

after_made :
    diff_input as_is
      (entry 97 2 ∷ entry 99 1 ∷ [])
      ((record { id = 7 ∷ []; fingerprint = blob 2 }) ∷ [])
    ≡ ok after
unfolding diff_input Map.get Map.insert rethinking_git.Graph.Tree.first_portable_collision
    rethinking_git.Graph.Tree.place
after_made = refl

before-IsKeyed : IsKeyed before
before-IsKeyed =
    diff_input-IsKeyed as_is (entry 98 1 ∷ entry 97 1 ∷ [])
      ((record { id = 7 ∷ []; fingerprint = blob 1 }) ∷ []) before before_made

after-IsKeyed : IsKeyed after
after-IsKeyed =
    diff_input-IsKeyed as_is (entry 97 2 ∷ entry 99 1 ∷ [])
      ((record { id = 7 ∷ []; fingerprint = blob 2 }) ∷ []) after after_made

diff-lists_example :
    (In (path 99) changes.added
      ↔ Added (Map.get (path 99) before.visible) (Map.get (path 99) after.visible))
    × (In (path 99) changes.modified
        ↔ Modified (Map.get (path 99) before.visible) (Map.get (path 99) after.visible))
    × (In (path 99) changes.deleted
        ↔ Deleted (Map.get (path 99) before.visible) (Map.get (path 99) after.visible))
diff-lists_example =
    diff-lists before after before-IsKeyed after-IsKeyed changes (path 99) diff_runs

diff-swap_example :
    diff after before ≡ ok (record changes { added = changes.deleted; deleted = changes.added })
diff-swap_example = diff-swap before after changes before-IsKeyed after-IsKeyed diff_runs

diff-opaque_zero_example :
    (changes.opaque_changed ≡ 0)
    ↔ ((id : OpaqueEntryId) → Map.get id before.opaque ≡ Map.get id after.opaque)
diff-opaque_zero_example = diff-opaque_zero before after changes diff_runs

diff-hides_example :
    (changes.added ≡ changes.added)
    × (changes.modified ≡ changes.modified)
    × (changes.deleted ≡ changes.deleted)
diff-hides_example =
    diff-hides before after before after_open changes changes refl refl diff_runs diff_open
