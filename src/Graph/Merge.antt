-- ===== src/Graph/Merge.antt =====
-- crates/rgit-graph/src/merge.rs: the three-way merge of flat trees.
pub mod Rule
pub mod Loop
pub mod Outcome
mod Runs
use mathlib.Core.Option
use rethinking_git.Base.{
  ℕ, Bool, true, false, Option, none, some, List, [], ◌∷◌, ◌++◌, ◌≡◌, Result, ok, err, ◌>>=◌,
  if◌then◌else◌, list_contains,
}
use rethinking_git.Base.Order.{Ord, nat_ord, list_ord}
use rethinking_git.Base.Map
use rethinking_git.Base.Map.{Map, keys}
use rethinking_git.Base.Set
use rethinking_git.Graph.Tree.{
  PathKey, PortablePath, ManifestTarget, PolicyRef, TreeEntry, path_key, entries_eq,
  PolicyRef-discrete, first_portable_collision,
}

pub data ConflictKind : Type 0 where
  add_add both_modified delete_modify : ConflictKind

pub record ConflictSide : Type 0 where
  pub target : ManifestTarget
  pub policy_ref : PolicyRef

abbrev pub side : TreeEntry → ConflictSide
side entry = record { target = entry.target; policy_ref = entry.policy_ref }

pub record MergeConflict : Type 0 where
  pub path : PortablePath
  pub kind : ConflictKind
  pub base : Option ConflictSide
  pub line : Option ConflictSide
  pub incoming : Option ConflictSide
  pub source_policy_refs : List PolicyRef

pub record MergePlan : Type 0 where
  pub merged_entries : List TreeEntry
  pub conflicts : List MergeConflict

-- The `&'static str` that names an input in an error.
pub data Input : Type 0 where
  base line incoming merged_result : Input

pub data MergeError : Type 0 where
  duplicate_path : Input → MergeError
  portable_path_collision : Input → PortablePath → PortablePath → MergeError

abbrev pub push_ref : Option TreeEntry → List PolicyRef → List PolicyRef
push_ref none refs = refs
push_ref (some entry) refs =
    if list_contains PolicyRef-discrete entry.policy_ref refs
    then refs
    else refs ++ entry.policy_ref ∷ []

pub conflict_kind : Option TreeEntry → Option TreeEntry → Option TreeEntry → ConflictKind
conflict_kind none (some _) (some _) = add_add
conflict_kind (some _) none (some _) = delete_modify
conflict_kind (some _) (some _) none = delete_modify
conflict_kind _ _ _ = both_modified

pub conflict : PortablePath → Option TreeEntry → Option TreeEntry → Option TreeEntry → MergeConflict
unfolding conflict_kind
conflict path b l i = record {
  path = path;
  kind = conflict_kind b l i;
  base = Option.map side b;
  line = Option.map side l;
  incoming = Option.map side i;
  source_policy_refs = push_ref b (push_ref i (push_ref l []));
}

abbrev pub push_entry : Option TreeEntry → MergePlan → MergePlan
push_entry none plan = plan
push_entry (some entry) plan = record plan { merged_entries = plan.merged_entries ++ entry ∷ [] }

-- `line_entry.or(incoming_entry).or(base_entry)`
abbrev pub first_some : Option TreeEntry → Option TreeEntry → Option TreeEntry
first_some (some a) b = some a
first_some none b = b

-- The body of the loop over the paths, given the three entries at the path.
pub merge_entry : Option TreeEntry → Option TreeEntry → Option TreeEntry → MergePlan → MergePlan
unfolding conflict
merge_entry b l i plan = if entries_eq l i then push_entry l plan else elim (entries_eq b l) [
  | true ↦ elim (entries_eq b i) [ true ↦ push_entry b plan | false ↦ push_entry i plan ]
  | false ↦ elim (entries_eq b i) [
    | true ↦ push_entry l plan
    | false ↦ elim (first_some (first_some l i) b) [
      | none ↦ plan
      | some source ↦ record plan { conflicts = plan.conflicts ++ conflict source.path b l i ∷ [] }
    ]
  ]
]

-- The keys of the three maps, in order and without repetition.
pub all_paths : Map PathKey TreeEntry → Map PathKey TreeEntry → Map PathKey TreeEntry → List PathKey
all_paths b l i = Set.from_list (keys b ++ (keys l ++ keys i))

pub merge_loop :
    Map PathKey TreeEntry
    → Map PathKey TreeEntry
    → Map PathKey TreeEntry
    → List PathKey
    → MergePlan
    → MergePlan
merge_loop b l i [] plan = plan
merge_loop b l i (key ∷ rest) plan =
    merge_loop b l i rest (merge_entry (Map.get key b) (Map.get key l) (Map.get key i) plan)

module _ (fold : List ℕ → List ℕ) where
  pub insert_all :
      Input → List TreeEntry → Map PathKey TreeEntry → Result MergeError (Map PathKey TreeEntry)
  insert_all input [] by_path = ok by_path
  insert_all input (entry ∷ entries) by_path =
      if Map.contains_key (path_key entry) by_path
      then err (duplicate_path input)
      else insert_all input entries (Map.insert (path_key entry) entry by_path)

  pub entries_by_path : Input → List TreeEntry → Result MergeError (Map PathKey TreeEntry)
  unfolding insert_all
  entries_by_path input entries = do
    by_path ← insert_all input entries []
    elim (first_portable_collision fold by_path) [
      | none ↦ ok by_path
      | some (first, second) ↦ err (portable_path_collision input first second)
    ]

  pub merge_three_way :
      List TreeEntry → List TreeEntry → List TreeEntry → Result MergeError MergePlan
  unfolding entries_by_path all_paths
  merge_three_way bs ls is = do
    b ← entries_by_path base bs
    l ← entries_by_path line ls
    i ← entries_by_path incoming is
    let plan = merge_loop b l i (all_paths b l i) (record { merged_entries = []; conflicts = [] })
    merged ← entries_by_path merged_result plan.merged_entries
    elim (first_portable_collision fold merged) [
      | none ↦ ok plan
      | some (first, second) ↦ err (portable_path_collision merged_result first second)
    ]
