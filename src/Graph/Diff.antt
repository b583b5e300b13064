-- ===== src/Graph/Diff.antt =====
-- crates/rgit-graph/src/diff.rs: the diff of two authorised tree views. Hidden entries count, and
-- their paths do not show.
pub mod Correct
pub mod Symmetry
mod Runs
use rethinking_git.Base.{
  ℕ, suc, ◌≡◌, ◌^◌, Bool, true, false, not, Option, none, some, List, [], ◌∷◌, ◌++◌, Result, ok,
  err, ◌>>=◌, if◌then◌else◌, option_eq, ltb, length,
}
use rethinking_git.Base.Order.{Ord, nat_ord, list_ord}
use rethinking_git.Base.Map
use rethinking_git.Base.Map.{Map, keys}
use rethinking_git.Base.Set
use rethinking_git.Objects.Id.{ObjectId}
use rethinking_git.Graph.Tree.{
  PathKey, PortablePath, TreeEntry, path_key, ObjectId-discrete, entries_eq,
  first_portable_collision,
}

-- `OpaqueEntryId([u8; 32])`
abbrev pub OpaqueEntryId : Type 0
OpaqueEntryId = List ℕ

pub record OpaqueEntry : Type 0 where
  pub id : OpaqueEntryId
  pub fingerprint : ObjectId

pub record DiffInput : Type 0 where
  pub visible : Map PathKey TreeEntry
  pub opaque : Map OpaqueEntryId ObjectId

pub data DiffError : Type 0 where
  duplicate_visible_path : DiffError
  portable_path_collision : PortablePath → PortablePath → DiffError
  duplicate_opaque_identity : DiffError
  opaque_count_overflow : DiffError

pub record FileDiff : Type 0 where
  pub added : List PortablePath
  pub modified : List PortablePath
  pub deleted : List PortablePath
  pub opaque_changed : ℕ

insert_visible : List TreeEntry → Map PathKey TreeEntry → Result DiffError (Map PathKey TreeEntry)
insert_visible [] m = ok m
insert_visible (entry ∷ entries) m =
    if Map.contains_key (path_key entry) m
    then err duplicate_visible_path
    else insert_visible entries (Map.insert (path_key entry) entry m)

insert_opaque :
    List OpaqueEntry → Map OpaqueEntryId ObjectId → Result DiffError (Map OpaqueEntryId ObjectId)
insert_opaque [] m = ok m
insert_opaque (entry ∷ entries) m =
    if Map.contains_key entry.id m
    then err duplicate_opaque_identity
    else insert_opaque entries (Map.insert entry.id entry.fingerprint m)

module _ (fold : List ℕ → List ℕ) where
  -- `DiffInput::new`
  pub diff_input : List TreeEntry → List OpaqueEntry → Result DiffError DiffInput
  unfolding insert_visible insert_opaque
  diff_input visible opaque = do
    visible_by_path ← insert_visible visible []
    elim (first_portable_collision fold visible_by_path) [
      | some (first, second) ↦ err (portable_path_collision first second)
      | none ↦ insert_opaque opaque [] >>= λ opaque_by_id.
          ok (record { visible = visible_by_path; opaque = opaque_by_id })
    ]

-- The body of the loop, given the entries before and after at a path.
pub diff_entry : Option TreeEntry → Option TreeEntry → FileDiff → FileDiff
diff_entry none none result = result
diff_entry none (some after) result = record result { added = result.added ++ after.path ∷ [] }
diff_entry (some before) none result = record result {
  deleted = result.deleted ++ before.path ∷ [];
}
diff_entry (some before) (some after) result =
    if entries_eq (some before) (some after)
    then result
    else record result { modified = result.modified ++ after.path ∷ [] }

pub diff_loop : DiffInput → DiffInput → List PathKey → FileDiff → FileDiff
diff_loop previous current [] result = result
diff_loop previous current (key ∷ rest) result =
    diff_loop previous current rest
      (diff_entry (Map.get key previous.visible) (Map.get key current.visible) result)

pub count_changed : DiffInput → DiffInput → List OpaqueEntryId → ℕ
count_changed previous current [] = 0
count_changed previous current (id ∷ ids) =
    let rest = count_changed previous current ids in
    if option_eq ObjectId-discrete (Map.get id previous.opaque) (Map.get id current.opaque)
    then rest
    else suc rest

pub diff : DiffInput → DiffInput → Result DiffError FileDiff
diff previous current =
    let paths = Set.from_list (keys previous.visible ++ keys current.visible) in
    let visible =
      diff_loop previous current paths
        (record { added = []; modified = []; deleted = []; opaque_changed = 0 }) in
    let changed =
      count_changed previous current
        (Set.from_list (keys previous.opaque ++ keys current.opaque)) in
    if ltb changed (2 ^ 64)
    then ok (record visible { opaque_changed = changed })
    else err opaque_count_overflow
