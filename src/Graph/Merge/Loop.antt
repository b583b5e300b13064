-- ===== src/Graph/Merge/Loop.antt =====
-- The loop over the paths, and the maps that it reads.
use rethinking_git.Base.{
  Option, none, some, List, [], ◌∷◌, ◌++◌, ◌≡◌, ◌≢◌, ◌↔◌, ◌⊎◌, inl, inr, ok, >>=-ok, if◌then◌else◌,
  arith, append-nil, append_assoc, In, Option-cases, flat_map, ℕ,
}
use rethinking_git.Base.Order.{nat_ord, list_ord, same, eq_of_same}
use rethinking_git.Base.Map
use rethinking_git.Base.Map.{Map, keys, get-insert, contains-keys, IsSorted, insert-IsSorted}
use rethinking_git.Base.Set
use rethinking_git.Base.Set.{contains-from_list, contains-iff-In, contains-append}
use rethinking_git.Graph.Tree.{TreeEntry, PathKey, path_key, first_portable_collision}
use rethinking_git.Graph.Merge.{
  MergePlan, MergeConflict, Input, merge_entry, merge_loop, insert_all, entries_by_path, all_paths,
}
use rethinking_git.Graph.Merge.Rule.{merged_at, conflicts_at, merge_entry-append}

-- The entry of a list at a path: the first with that path.
abbrev pub at : PathKey → List TreeEntry → Option TreeEntry
at k [] = none
at k (e ∷ es) = if same k (path_key e) then some e else at k es

-- What is found at a path has that path.
pub at-path : (k : PathKey) (es : List TreeEntry) (e : TreeEntry) → at k es ≡ some e → k ≡ e.path
at-path k [] e h = cc
at-path k (x ∷ es) e h = ground (arith, eq_of_same k (path_key x), at-path k es e)

module _ (fold : List ℕ → List ℕ) where
  get-insert_all :
      (input : Input) (es : List TreeEntry) (m m' : Map PathKey TreeEntry) (k : PathKey)
      → insert_all fold input es m ≡ ok m'
      → Map.get k m' ≡ elim (Map.get k m) [ some e ↦ some e | none ↦ at k es ]
  unfolding insert_all
  get-insert_all input [] m m' k h = ground arith
  get-insert_all input (e ∷ es) m m' k h = elim (Option-cases (Map.get (path_key e) m)) [
    | inl fresh ↦ ground (
      arith,
      get-insert_all input es (Map.insert (path_key e) e m) m' k,
      get-insert k (path_key e) e m,
      eq_of_same k (path_key e),
    )
    | inr (x, old) ↦ ground arith
  ]

  insert_all-IsSorted :
      (input : Input) (es : List TreeEntry) (m m' : Map PathKey TreeEntry)
      → insert_all fold input es m ≡ ok m'
      → IsSorted m
      → IsSorted m'
  unfolding insert_all
  insert_all-IsSorted input [] m m' h s = ground arith
  insert_all-IsSorted input (e ∷ es) m m' h s = elim (Option-cases (Map.get (path_key e) m)) [
    | inl fresh ↦ ground (
      arith,
      insert_all-IsSorted input es (Map.insert (path_key e) e m) m',
      insert-IsSorted (path_key e) e m s,
    )
    | inr (x, old) ↦ ground arith
  ]

  entries_by_path-ok :
      (input : Input) (es : List TreeEntry) (m : Map PathKey TreeEntry)
      → entries_by_path fold input es ≡ ok m
      → (insert_all fold input es [] ≡ ok m) × (first_portable_collision fold m ≡ none)
  unfolding entries_by_path
  entries_by_path-ok input es m h =
      let (m', e, r) = >>=-ok (insert_all fold input es []) _ h in ground arith

  -- The map of an input reads as the input.
  pub get-entries_by_path :
      (input : Input) (es : List TreeEntry) (m : Map PathKey TreeEntry) (k : PathKey)
      → entries_by_path fold input es ≡ ok m
      → Map.get k m ≡ at k es
  get-entries_by_path input es m k h =
      unfold Map.get in (get-insert_all input es [] m k (entries_by_path-ok input es m h).0)

  pub entries_by_path-IsSorted :
      (input : Input) (es : List TreeEntry) (m : Map PathKey TreeEntry)
      → entries_by_path fold input es ≡ ok m
      → IsSorted m
  entries_by_path-IsSorted input es m h =
      insert_all-IsSorted input es [] m (entries_by_path-ok input es m h).0 tt

module _ (b l i : Map PathKey TreeEntry) where
  abbrev pub merged_of : PathKey → List TreeEntry
  merged_of k = merged_at (Map.get k b) (Map.get k l) (Map.get k i)

  abbrev pub conflicts_of : PathKey → List MergeConflict
  conflicts_of k = conflicts_at (Map.get k b) (Map.get k l) (Map.get k i)

-- The loop collects what each path gives.
pub merge_loop-flat_map :
    (b l i : Map PathKey TreeEntry) (ks : List PathKey) (plan : MergePlan)
    → merge_loop b l i ks plan ≡ record {
      merged_entries = plan.merged_entries ++ flat_map (merged_of b l i) ks;
      conflicts = plan.conflicts ++ flat_map (conflicts_of b l i) ks;
    }
unfolding merge_loop flat_map
merge_loop-flat_map b l i [] plan =
    ground (arith, append-nil plan.merged_entries, append-nil plan.conflicts)
merge_loop-flat_map b l i (k ∷ ks) plan =
    let next = merge_entry (Map.get k b) (Map.get k l) (Map.get k i) plan in
    ground (
      arith,
      merge_entry-append (Map.get k b) (Map.get k l) (Map.get k i) plan,
      merge_loop-flat_map b l i ks next,
      append_assoc plan.merged_entries (merged_of b l i k) (flat_map (merged_of b l i) ks),
      append_assoc plan.conflicts (conflicts_of b l i k) (flat_map (conflicts_of b l i) ks),
    )

-- A path is visited exactly if one of the maps has it.
pub In-all_paths :
    (b l i : Map PathKey TreeEntry) (k : PathKey)
    → In k (all_paths b l i) ↔ ((Map.get k b ≢ none) ⊎ (Map.get k l ≢ none) ⊎ (Map.get k i ≢ none))
unfolding all_paths
In-all_paths b l i k = ground (
  arith,
  contains-iff-In k (Set.from_list (keys b ++ (keys l ++ keys i))),
  contains-from_list k (keys b ++ (keys l ++ keys i)),
  contains-append k (keys b) (keys l ++ keys i),
  contains-append k (keys l) (keys i),
  contains-keys k b,
  contains-keys k l,
  contains-keys k i,
)
