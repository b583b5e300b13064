-- ===== src/Graph/Tree.antt =====
-- crates/rgit-graph/src/tree.rs: tree entries, and the paths that cannot coexist in one portable
-- tree. A string is the list of its UTF-8 bytes. Unicode case folding (the third-party crate
-- unicode-casefold, then NFC) is the parameter `fold`.
use rethinking_git.Base.{
  ℕ, Bool, Option, none, some, List, [], ◌∷◌, ◌≡◌, Result, ok, err, ◌>>=◌, if◌then◌else◌, option_eq,
  option_eq_iff, ◌≢◌, ◌⊎◌, inl, inr, Bool-cases, lt, eq, gt,
}
use rethinking_git.Base.Order.{nat_ord, list_ord, same}
use rethinking_git.Base.Map.{Map, values}
use rethinking_git.Objects.Id.{ObjectId}
use native.Mathlib.Decide.{ℕ_discrete}

-- `PathSegment` and `PortablePath` of rgit-objects, as bytes.
abbrev pub PathSegment : Type 0
PathSegment = List ℕ

abbrev pub PortablePath : Type 0
PortablePath = List PathSegment

-- `PathKey(Vec<Vec<u8>>)`: the segments' bytes, compared lexicographically.
abbrev pub PathKey : Type 0
PathKey = List (List ℕ)

pub data FileMode : Type 0 where
  regular executable : FileMode

pub data ManifestTarget : Type 0 where
  file : ObjectId → FileMode → ManifestTarget
  directory : ObjectId → ManifestTarget
  symlink : ObjectId → ManifestTarget
  subproject : ObjectId → ManifestTarget
  secret_ref : ObjectId → ManifestTarget

pub record PolicyRef : Type 0 where
  pub policy_id : List ℕ
  pub version : ObjectId

pub record TreeEntry : Type 0 where
  pub path : PortablePath
  pub target : ManifestTarget
  pub policy_ref : PolicyRef

pub data TreeEntryError : Type 0 where
  empty_path : TreeEntryError

-- `TreeEntry::new`
pub tree_entry : PortablePath → ManifestTarget → PolicyRef → Result TreeEntryError TreeEntry
tree_entry [] target policy_ref = err empty_path
tree_entry (s ∷ path) target policy_ref =
    ok (record { path = s ∷ path; target = target; policy_ref = policy_ref })

abbrev pub path_key : TreeEntry → PathKey
path_key entry = entry.path

unfoldable pub ObjectId-discrete : Discrete ObjectId
ObjectId-discrete = hlevel ℕ_discrete

unfoldable pub PolicyRef-discrete : Discrete PolicyRef
PolicyRef-discrete = hlevel (ℕ_discrete, ObjectId-discrete)

unfoldable pub TreeEntry-discrete : Discrete TreeEntry
TreeEntry-discrete = hlevel (ℕ_discrete, ObjectId-discrete, PolicyRef-discrete)

-- `Option<&TreeEntry>` values compared by `==`.
abbrev pub entries_eq : Option TreeEntry → Option TreeEntry → Bool
entries_eq = option_eq TreeEntry-discrete

pub entries-cases : (a b : Option TreeEntry) → (a ≡ b) ⊎ (a ≢ b)
entries-cases a b = elim (Bool-cases (entries_eq a b)) [
  | inl e ↦ inl ((option_eq_iff TreeEntry-discrete a b).0 e)
  | inr e ↦ inr (λ p. cc (e, (option_eq_iff TreeEntry-discrete a b).1 p))
]

-- `PortableTreeNode` (its terminal and its children) and `PortableTreeChild` (the folded key,
-- spelling, representative and node).
mutual
  pub data PortableTreeNode : Type 0 where
    node : Option PortablePath → Children → PortableTreeNode

  pub data Children : Type 0 where
    empty : Children
    child : List ℕ → PathSegment → PortablePath → PortableTreeNode → Children → Children

-- `min_by_key(path_key_bytes)`: the first of the least representatives.
unfoldable pub least : PortablePath → Children → PortablePath
least best empty = best
least best (child _ _ representative _ rest) =
    least (elim (list_ord.cmp representative best) [ lt ↦ representative | _ ↦ best ]) rest

-- The end of the inner loop: the whole path of `current` has been walked.
unfoldable pub end_at :
    PortablePath → PortableTreeNode → Result (PortablePath × PortablePath) PortableTreeNode
unfolding least
end_at current (node terminal empty) = ok (node (some current) empty)
end_at current (node terminal (child folded spelling representative below rest)) =
    err (current, least representative rest)

-- `children.entry(folded).or_insert_with(..)`, the check of the spelling, and the rest of the walk
-- in the child.
unfoldable pub enter :
    (PortableTreeNode → Result (PortablePath × PortablePath) PortableTreeNode)
    → PortablePath
    → List ℕ
    → PathSegment
    → Children
    → Result (PortablePath × PortablePath) Children
enter walk current folded segment empty = do
  below ← walk (node none empty)
  ok (child folded segment current below empty)
enter walk current folded segment (child key spelling representative below rest) =
    let fresh = walk (node none empty) >>= λ made.
    ok (child folded segment current made (child key spelling representative below rest)) in
    let here = walk below >>= λ made. ok (child key spelling representative made rest) in
    let later = enter walk current folded segment rest >>= λ made.
    ok (child key spelling representative below made) in
    elim (list_ord.cmp folded key) [
      | lt ↦ fresh
      | eq ↦ if same spelling segment then here else err (representative, current)
      | gt ↦ later
    ]

module _ (fold : PathSegment → List ℕ) where
  -- The loop over the segments of one entry.
  unfoldable pub place :
      PortablePath
      → List PathSegment
      → PortableTreeNode
      → Result (PortablePath × PortablePath) PortableTreeNode
  unfolding end_at enter
  place current [] n = end_at current n
  place current (segment ∷ segments) (node (some ancestor) children) = err (ancestor, current)
  place current (segment ∷ segments) (node none children) = do
    made ← enter (place current segments) current (fold segment) segment children
    ok (node none made)

  -- The loop over the entries.
  unfoldable pub place_all :
      List TreeEntry → PortableTreeNode → Result (PortablePath × PortablePath) PortableTreeNode
  place_all [] root = ok root
  place_all (entry ∷ entries) root = do
    root' ← place entry.path entry.path root
    place_all entries root'

  unfoldable pub first_portable_collision :
      Map PathKey TreeEntry → Option (PortablePath × PortablePath)
  unfolding place_all
  first_portable_collision entries = elim (place_all (values entries) (node none empty)) [
    | ok _ ↦ none
    | err pair ↦ some pair
  ]
