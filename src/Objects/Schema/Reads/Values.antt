-- ===== src/Objects/Schema/Reads/Values.antt =====
-- What the readers of single values accept, and the edges that follow from it.
use rethinking_git.Base.{
  ℕ, false, Option, some, List, Result, ok, ◌>>=◌, ◌≡◌, refl, sym, subst, ap, inl, inr, ◌↔◌, In,
  >>=-ok, arith, Option-cases, Bool-cases,
}
use rethinking_git.Objects.Canonical.{Value, Items, Fields}
use rethinking_git.Objects.Error.{DecodeObjectError}
use rethinking_git.Objects.Id.{ObjectId, from_bytes}
use rethinking_git.Objects.Reference.{ObjectKind, ReferenceRole, ReferenceEdge, kind_of_code}
use rethinking_git.Objects.Schema.{
  list_of, as_map, optional_field, field, unsigned, bytes, array, oid,
}
use rethinking_git.Objects.Schema.Parts.{read_kind, at_field}
use rethinking_git.Objects.Schema.Edges.Build.{
  Edges, edges_of, oid_edge, inner_edge, typed_edge, array_edges, is_null, add,
}
use rethinking_git.Objects.Schema.Reads.{
  Relation, Reads, IdGives, FieldGives, MapGives, NumberGives, ArrayGives, SomeGives, TypedGives,
  InnerGives, field-Reads, edges_of-Reads,
}

-- A step whose result decides what follows.
pub bind-Reads {ℓ} :
    {A : Type ℓ} (r : Result DecodeObjectError A) (edges : A → Edges) (gives : A → Relation)
    (out : List ReferenceEdge) (e : ReferenceEdge)
    → ((a : A) → Reads (edges a) (gives a))
    → (r >>= edges) ≡ ok out
    → In e out ↔ ((a : A) × (r ≡ ok a) × gives a e)
bind-Reads r edges gives out e f h =
    let (a, p, q) = >>=-ok r edges h in
    let reads = f a out q e in
    (
      λ i. (a, p, reads.0 i),
      λ (a', p', g). reads.1 (subst (λ x. gives x e) (ground (arith, p, p')) g),
    )

as_map_iff : (value : Value) (m : Fields) → (as_map value ≡ ok m) ↔ (value ≡ Value.map m)
unfolding as_map
as_map_iff (Value.map entries) m = ground arith
as_map_iff value m = ground arith

unsigned_iff :
    (value : Value) (key n : ℕ) → (unsigned value key ≡ ok n) ↔ (value ≡ Value.unsigned n)
unfolding unsigned
unsigned_iff (Value.unsigned k) key n = ground arith
unsigned_iff value key n = ground arith

array_iff :
    (value : Value) (key : ℕ) (values : List Value)
    → (array value key ≡ ok values)
      ↔ ((items : Items) × (value ≡ Value.array items) × (list_of items ≡ values))
unfolding array
array_iff (Value.array items) key values =
    (λ h. (items, refl, ground arith), λ (others, p, q). ground (arith, q))
array_iff value key values = (λ h. absurd (ground arith), λ (items, p, q). absurd (ground arith))

oid_iff :
    (value : Value) (key : ℕ) (id : ObjectId)
    → (oid value key ≡ ok id)
      ↔ ((content : List ℕ) × (value ≡ Value.bytes content) × (from_bytes content ≡ ok id))
unfolding oid bytes
oid_iff (Value.bytes content) key id =
    (λ h. (content, refl, ground arith), λ (others, p, q). ground arith)
oid_iff value key id = (λ h. absurd (ground arith), λ (items, p, q). absurd (ground arith))

read_kind_iff : (n : ℕ) (kind : ObjectKind) → (read_kind n ≡ ok kind) ↔ (kind_of_code n ≡ some kind)
unfolding read_kind
read_kind_iff n kind = elim (Option-cases (kind_of_code n)) [
  | inl h ↦ ground arith
  | inr (k, h) ↦ ground arith
]

field_iff :
    (m : Fields) (key : ℕ) (value : Value)
    → (field m key ≡ ok value) ↔ (optional_field m key ≡ some value)
unfolding field
field_iff m key value = elim (Option-cases (optional_field m key)) [
  | inl h ↦ ground arith
  | inr (v, h) ↦ ground arith
]

pub oid_edge-Reads :
    (role : ReferenceRole) (expected : Option ObjectKind) (key : ℕ) (value : Value)
    → Reads (oid_edge role expected key value) (IdGives role expected value)
unfolding oid_edge
oid_edge-Reads role expected key value out h e =
    let (id, p, q) = >>=-ok (oid value key) _ h in
    let (content, is_bytes, is_id) = (oid_iff value key id).0 p in
    (
      λ i. (content, id, is_bytes, is_id, ground arith),
      λ (others, id', is_bytes', is_id', g).
          let p' = (oid_iff value key id').1 (others, is_bytes', is_id') in
          ground (arith, p', p, q, g),
    )

pub map-Reads :
    (value : Value) (edges : Fields → Edges) (gives : Fields → Relation)
    → ((m : Fields) → Reads (edges m) (gives m))
    → Reads (as_map value >>= edges) (MapGives gives value)
map-Reads value edges gives f out h e =
    let reads = bind-Reads (as_map value) edges gives out e f h in
    (
      λ i. let (m, p, g) = reads.0 i in (m, (as_map_iff value m).0 p, g),
      λ (m, p, g). reads.1 (m, (as_map_iff value m).1 p, g),
    )

pub unsigned-Reads :
    (value : Value) (key : ℕ) (edges : ℕ → Edges) (gives : ℕ → Relation)
    → ((n : ℕ) → Reads (edges n) (gives n))
    → Reads (unsigned value key >>= edges) (NumberGives gives value)
unsigned-Reads value key edges gives f out h e =
    let reads = bind-Reads (unsigned value key) edges gives out e f h in
    (
      λ i. let (n, p, g) = reads.0 i in (n, (unsigned_iff value key n).0 p, g),
      λ (n, p, g). reads.1 (n, (unsigned_iff value key n).1 p, g),
    )

pub array-Reads :
    (value : Value) (key : ℕ) (edges : Value → Edges) (gives : Value → Relation)
    → ((x : Value) → Reads (edges x) (gives x))
    → Reads (array value key >>= edges_of edges) (ArrayGives gives value)
array-Reads value key edges gives f out h e =
    let reads =
      bind-Reads (array value key) (edges_of edges) (SomeGives gives) out e
        (λ xs. edges_of-Reads edges gives xs f) h in
    (
      λ i.
          let (xs, p, (x, j, g)) = reads.0 i in
          let (items, is_array, same_items) = (array_iff value key xs).0 p in
          (items, is_array, (x, subst (In x) (sym same_items) j, g)),
      λ (items, is_array, (x, j, g)). reads.1 (
        list_of items,
        (array_iff value key (list_of items)).1 (items, is_array, refl),
        (x, j, g),
      ),
    )

pub kind-Reads :
    (n : ℕ) (edges : ObjectKind → Edges) (gives : ObjectKind → Relation)
    → ((kind : ObjectKind) → Reads (edges kind) (gives kind))
    → Reads
        (read_kind n >>= edges)
        (λ e. (kind : ObjectKind) × (kind_of_code n ≡ some kind) × gives kind e)
kind-Reads n edges gives f out h e =
    let reads = bind-Reads (read_kind n) edges gives out e f h in
    (
      λ i. let (k, p, g) = reads.0 i in (k, (read_kind_iff n k).0 p, g),
      λ (k, p, g). reads.1 (k, (read_kind_iff n k).1 p, g),
    )

-- The map's field `inner` is an identifier.
pub inner_edge-Reads :
    (role : ReferenceRole) (expected : Option ObjectKind) (inner key : ℕ) (value : Value)
    → Reads (inner_edge role expected inner key value) (InnerGives role expected inner value)
unfolding inner_edge
inner_edge-Reads role expected inner key value =
    map-Reads value _ _ λ m. field-Reads m inner _ _ (oid_edge-Reads role expected key)

pub typed_edge-Reads :
    (role : ReferenceRole) (key : ℕ) (value : Value)
    → Reads (typed_edge role key value) (TypedGives role value)
unfolding typed_edge
typed_edge-Reads role key value = map-Reads value _ _ λ m. field-Reads m 0 _ _ λ number.
    unsigned-Reads number key _ _
      λ n. kind-Reads n _ _ λ kind. field-Reads m 1 _ _ (oid_edge-Reads role (some kind) key)

-- A loop over the array at `key`.
pub each-Reads :
    (m : Fields) (key : ℕ) (edges : Value → Edges) (gives : Value → Relation)
    → ((x : Value) → Reads (edges x) (gives x))
    → Reads (at_field array m key >>= edges_of edges) (FieldGives m key (ArrayGives gives))
each-Reads m key edges gives f out h e =
    let (xs, p, q) = >>=-ok (at_field array m key) _ h in
    let (value, there, r) = >>=-ok (field m key) _ p in
    field-Reads m key (λ v. array v key >>= edges_of edges) (ArrayGives gives)
      (λ v. array-Reads v key edges gives f) out (ground (arith, there, r, q)) e

pub array_edges-Reads :
    (m : Fields) (key : ℕ) (role : ReferenceRole) (expected : ObjectKind)
    → Reads
        (array_edges m key role expected)
        (FieldGives m key (ArrayGives (IdGives role (some expected))))
unfolding array_edges
array_edges-Reads m key role expected =
    each-Reads m key _ _ (oid_edge-Reads role (some expected) key)

bytes_are_not_null :
    (value : Value) (content : List ℕ) → value ≡ Value.bytes content → is_null value ≡ false
unfolding is_null
bytes_are_not_null value content h = ap is_null h

-- Null gives no edge, as it is no identifier.
pub add-Reads :
    (m : Fields) (key : ℕ) (role : ReferenceRole) (expected : Option ObjectKind)
    → Reads (add m key role expected) (FieldGives m key (IdGives role expected))
unfolding add
add-Reads m key role expected out h e = elim (Option-cases (optional_field m key)) [
  | inl absent ↦ (λ i. absurd (ground arith), λ (v, there, g). absurd (ground arith))
  | inr (value, there) ↦ elim (Bool-cases (is_null value)) [
    | inl null ↦ (
      λ i. absurd (ground arith),
      λ (v, there', (content, id, is_bytes, is_id, g)).
          absurd (ground (arith, bytes_are_not_null v content is_bytes)),
    )
    | inr other ↦
        let reads = oid_edge-Reads role expected key value out (ground arith) e in
        (
          λ i. (value, there, reads.0 i),
          λ (v, there', g). reads.1 (subst (λ x. IdGives role expected x e) (ground arith) g),
        )
  ]
]
