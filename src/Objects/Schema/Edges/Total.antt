-- ===== src/Objects/Schema/Edges/Total.antt =====
-- A field that the schema checks gives its edges without an error.
use rethinking_git.Base.{
  ℕ, Option, some, List, [], ◌∷◌, ◌++◌, Result, ok, err, ◌>>◌, ◌≡◌, refl, >>=-ok, All, arith,
  Option-cases, Bool-cases, inl, inr,
}
use rethinking_git.Objects.Canonical.{Value, Fields}
use rethinking_git.Objects.Id.{ObjectId}
use rethinking_git.Objects.Error.{DecodeObjectError}
use rethinking_git.Objects.Reference.{ObjectKind, ReferenceRole}
use rethinking_git.Objects.Schema.{
  Check, each, collect, checked, field, optional_field, array, oid, oid_array, oid_values,
}
use rethinking_git.Objects.Schema.Parts.{at_field, oid_at, oid_if_some}
use rethinking_git.Objects.Schema.Edges.Build.{
  Edges, join, edges_of, oid_edge, array_edges, is_null, add,
}

abbrev pub Succeeds {ℓ} : {A : Type ℓ} → Result DecodeObjectError A → Type ℓ
Succeeds {A = A} r = (a : A) × (r ≡ ok a)

-- A reader that is only checked.
pub checked-Succeeds {ℓ} :
    {A : Type ℓ} (r : Result DecodeObjectError A) → checked r ≡ ok tt → Succeeds r
checked-Succeeds (ok a) h = (a, refl)
checked-Succeeds (err e) h = cc

-- The two halves of a sequence of checks.
pub >>-ok {ℓ} :
    {B : Type ℓ} (m : Check) (k : Result DecodeObjectError B) {b : B}
    → (m >> k) ≡ ok b
    → (m ≡ ok tt) × (k ≡ ok b)
>>-ok (ok a) k h = (refl, h)
>>-ok (err e) k h = cc

pub oid_edge-Succeeds :
    (role : ReferenceRole) (expected : Option ObjectKind) (key : ℕ) (value : Value)
    → checked (oid value key) ≡ ok tt
    → Succeeds (oid_edge role expected key value)
unfolding oid_edge
oid_edge-Succeeds role expected key value h =
    let (id, e) = checked-Succeeds (oid value key) h in
    ((record { role = role; expected_kind = expected; id = id }) ∷ [], ground (arith, e))

pub add-Succeeds :
    (m : Fields) (key : ℕ) (role : ReferenceRole) (expected : Option ObjectKind)
    → oid_if_some m key ≡ ok tt
    → Succeeds (add m key role expected)
unfolding add
add-Succeeds m key role expected h = elim (Option-cases (optional_field m key)) [
  | inl e ↦ ([], ground (arith, e))
  | inr (value, e) ↦ elim (Bool-cases (is_null value)) [
    | inl n ↦ ([], ground (arith, e, n))
    | inr n ↦
        let (edges, made) = oid_edge-Succeeds role expected key value (ground (arith, e, h)) in
        (edges, ground (arith, e, n, made))
  ]
]

-- An identifier that is required.
pub oid_at-if_some : (m : Fields) (key : ℕ) → oid_at m key ≡ ok tt → oid_if_some m key ≡ ok tt
unfolding field
oid_at-if_some m key h = ground (arith, Option-cases (optional_field m key))

pub join-Succeeds : (parts : List Edges) → All Succeeds parts → Succeeds (join parts)
unfolding join
join-Succeeds [] a = ([], refl)
join-Succeeds (part ∷ parts) ((first, e), rest) =
    let (edges, e') = join-Succeeds parts rest in (first ++ edges, ground (arith, e, e'))

-- A loop that is checked value by value.
pub edges_of-Succeeds :
    (check : Value → Check) (edges : Value → Edges) (values : List Value)
    → ((value : Value) → check value ≡ ok tt → Succeeds (edges value))
    → each check values ≡ ok tt
    → Succeeds (edges_of edges values)
unfolding edges_of each
edges_of-Succeeds check edges [] f h = ([], refl)
edges_of-Succeeds check edges (value ∷ values) f h =
    let (e, r) = >>-ok (check value) _ h in
    let (first, p) = f value e in
    let (rest, q) = edges_of-Succeeds check edges values f r in
    (first ++ rest, ground (arith, p, q))

collect-each :
    (key : ℕ) (values : List Value) (ids : List ObjectId)
    → collect (λ value. oid value key) values ≡ ok ids
    → each (λ value. checked (oid value key)) values ≡ ok tt
unfolding collect each
collect-each key [] ids h = refl
collect-each key (value ∷ values) ids h =
    let (id, e, h₁) = >>=-ok (oid value key) _ h in
    let (rest, e', _) = >>=-ok (collect (λ x. oid x key) values) _ h₁ in
    ground (arith, e, collect-each key values rest e')

-- An array of identifiers.
pub array_edges-Succeeds :
    (m : Fields) (key : ℕ) (role : ReferenceRole) (expected : ObjectKind)
    → at_field oid_array m key ≡ ok tt
    → Succeeds (array_edges m key role expected)
unfolding array_edges oid_array
array_edges-Succeeds m key role expected h =
    let (value, e, h₁) = >>=-ok (field m key) _ h in
    let (values, e', h₂) = >>=-ok (array value key) _ h₁ in
    let (edges, made) =
      edges_of-Succeeds (λ x. checked (oid x key)) (oid_edge role (some expected) key) values
        (λ x. oid_edge-Succeeds role (some expected) key x) h₂ in
    (edges, ground (arith, e, e', made))

pub oid_values-oid_array :
    (m : Fields) (key : ℕ)
    → checked (at_field oid_values m key) ≡ ok tt
    → at_field oid_array m key ≡ ok tt
unfolding oid_values oid_array
oid_values-oid_array m key h =
    let (ids, h₀) = checked-Succeeds (at_field oid_values m key) h in
    let (value, e, h₁) = >>=-ok (field m key) _ h₀ in
    let (values, e', h₂) = >>=-ok (array value key) _ h₁ in
    ground (arith, e, e', collect-each key values ids h₂)
