-- ===== src/Graph/Merge/Runs.antt =====
-- Runs of the merge.
use rethinking_git.Base.{
  arith, ℕ, ◌≡◌, ◌↔◌, refl, List, [], ◌∷◌, Option, some, none, Result, ok, err, In, inl,
}
use rethinking_git.Base.Order.{nat_ord, list_ord}
use rethinking_git.Objects.Id.{ObjectId, sha256}
use rethinking_git.Graph.Tree.{TreeEntry, PathKey, PolicyRef, file, regular, executable}
use rethinking_git.Graph.Merge.{MergePlan, MergeConflict, conflict, merge_three_way}
use rethinking_git.Graph.Merge.Rule.{Takes, Records}
use rethinking_git.Graph.Merge.Loop.{at}
use rethinking_git.Graph.Merge.Outcome.{merge-Takes, merge-conflicts}

-- Names as they are: no case folding.
abbrev as_is : List ℕ → List ℕ
as_is name = name

abbrev blob : ℕ → ObjectId
blob n = record { format_version = 0; algorithm = sha256; digest = n ∷ [] }

abbrev policy : PolicyRef
policy = record { policy_id = 1 ∷ []; version = blob 0 }

abbrev entry : ℕ → ℕ → TreeEntry
entry name content = record {
  path = (name ∷ []) ∷ [];
  target = file (blob content) regular;
  policy_ref = policy;
}

-- `a` is changed on the incoming side, `b` on both sides in different ways.
abbrev old : List TreeEntry
old = entry 97 1 ∷ entry 98 1 ∷ []

abbrev ours : List TreeEntry
ours = entry 97 1 ∷ entry 98 2 ∷ []

abbrev theirs : List TreeEntry
theirs = entry 97 3 ∷ entry 98 3 ∷ []

abbrev plan : MergePlan
plan = record {
  merged_entries = entry 97 3 ∷ [];
  conflicts =
      conflict ((98 ∷ []) ∷ []) (some (entry 98 1)) (some (entry 98 2)) (some (entry 98 3)) ∷ [];
}

merge_runs : merge_three_way as_is old ours theirs ≡ ok plan
unfolding merge_three_way rethinking_git.Base.Map.get rethinking_git.Base.Map.insert
    rethinking_git.Graph.Tree.first_portable_collision rethinking_git.Graph.Tree.place
    rethinking_git.Graph.Merge.merge_loop rethinking_git.Base.Set.from_list
    rethinking_git.Base.Set.insert rethinking_git.Graph.Merge.merge_entry
    rethinking_git.Base.option_eq rethinking_git.Graph.Tree.TreeEntry-discrete
    native.Mathlib.Decide.ℕ_discrete rethinking_git.Graph.Tree.ObjectId-discrete
    rethinking_git.Graph.Tree.PolicyRef-discrete
merge_runs = refl

merge-Takes_example :
    In (entry 97 3) plan.merged_entries
    ↔ Takes
        (at ((97 ∷ []) ∷ []) old)
        (at ((97 ∷ []) ∷ []) ours)
        (at ((97 ∷ []) ∷ []) theirs)
        (entry 97 3)
merge-Takes_example = merge-Takes as_is old ours theirs plan (entry 97 3) merge_runs

abbrev clash : MergeConflict
clash = conflict ((98 ∷ []) ∷ []) (some (entry 98 1)) (some (entry 98 2)) (some (entry 98 3))

merge-conflicts_example :
    In clash plan.conflicts
    ↔ Records (at clash.path old) (at clash.path ours) (at clash.path theirs) clash
merge-conflicts_example = merge-conflicts as_is old ours theirs plan clash merge_runs
