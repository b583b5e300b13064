-- ===== src/Objects/Schema/Edges/Build.antt =====
-- crates/rgit-objects/src/decode.rs, `references`: what its arms are built of. Edges that the code
-- pushes on `out` one after the other are lists joined in that order.
use rethinking_git.Base.{
  ℕ, Bool, true, false, Option, none, some, List, [], ◌∷◌, ◌++◌, Result, ok, ◌>>=◌,
}
use rethinking_git.Objects.Canonical.{Value, Fields}
use rethinking_git.Objects.Error.{DecodeObjectError}
use rethinking_git.Objects.Reference.{ObjectKind, ReferenceRole, ReferenceEdge}
use rethinking_git.Objects.Schema.{as_map, field, optional_field, unsigned, array, oid}
use rethinking_git.Objects.Schema.Parts.{read_kind, at_field}

abbrev pub Edges : Type 0
Edges = Result DecodeObjectError (List ReferenceEdge)

-- One part after the other.
unfoldable pub join : List Edges → Edges
join [] = ok []
join (part ∷ parts) = do first ← part; rest ← join parts; ok (first ++ rest)

-- A loop that pushes edges for each value.
unfoldable pub edges_of : (Value → Edges) → List Value → Edges
edges_of edges [] = ok []
edges_of edges (value ∷ values) = do
  first ← edges value
  rest ← edges_of edges values
  ok (first ++ rest)

unfoldable pub oid_edge : ReferenceRole → Option ObjectKind → ℕ → Value → Edges
oid_edge role expected key value = do
  id ← oid value key
  ok ((record { role = role; expected_kind = expected; id = id }) ∷ [])

-- The identifier at `inner` of a map.
unfoldable pub inner_edge : ReferenceRole → Option ObjectKind → ℕ → ℕ → Value → Edges
inner_edge role expected inner key value = do
  m ← as_map value
  content ← field m inner
  oid_edge role expected key content

-- An edge whose kind stands beside the identifier.
unfoldable pub typed_edge : ReferenceRole → ℕ → Value → Edges
typed_edge role key value = do
  m ← as_map value
  number ← field m 0
  code ← unsigned number key
  kind ← read_kind code
  content ← field m 1
  oid_edge role (some kind) key content

-- Every identifier of the array `key`.
unfoldable pub array_edges : Fields → ℕ → ReferenceRole → ObjectKind → Edges
array_edges m key role expected =
    at_field array m key >>= edges_of (oid_edge role (some expected) key)

unfoldable pub is_null : Value → Bool
is_null Value.null = true
is_null _ = false

-- The macro `add!`.
unfoldable pub add : Fields → ℕ → ReferenceRole → Option ObjectKind → Edges
add m key role expected = elim (optional_field m key) [
  | none ↦ ok []
  | some value ↦ elim (is_null value) [ true ↦ ok [] | false ↦ oid_edge role expected key value ]
]

-- `if let Some(value) = .. { out.push(..) }`
abbrev pub edges_if_some : Option Value → (Value → Edges) → Edges
edges_if_some none edges = ok []
edges_if_some (some value) edges = edges value
