-- ===== src/Objects/Schema/Reads.antt =====
-- The edges that the parts of `references` read, as relations on canonical values.
pub mod Values
pub mod Described
pub mod History
pub mod Trust
pub mod Exact
use rethinking_git.Base.{
  ℕ, true, false, Option, none, some, List, [], ◌∷◌, ◌++◌, Result, ok, err, ◌>>=◌, ◌≡◌, refl, sym,
  subst, ap, ◌⊎◌, inl, inr, ◌↔◌, In, In-append, >>=-ok, arith, Option-cases, Bool-cases,
}
use rethinking_git.Objects.Canonical.{Value, Items, Fields}
use rethinking_git.Objects.Error.{DecodeObjectError}
use rethinking_git.Objects.Id.{ObjectId, from_bytes}
use rethinking_git.Objects.Reference.{ObjectKind, ReferenceRole, ReferenceEdge, kind_of_code}
use rethinking_git.Objects.Schema.{
  list_of, as_map, optional_field, field, unsigned, bytes, array, oid,
}
use rethinking_git.Objects.Schema.Parts.{read_kind, at_field}
use rethinking_git.Objects.Schema.Edges.Build.{
  Edges, join, edges_of, oid_edge, inner_edge, typed_edge, array_edges, is_null, add, edges_if_some,
}

-- Which edges a value gives.
abbrev pub Relation : Type 1
Relation = ReferenceEdge → Type 0

-- What is read is what the relation holds of.
abbrev pub Reads : Edges → Relation → Type 0
Reads r gives =
    (edges : List ReferenceEdge) → r ≡ ok edges → (e : ReferenceEdge) → In e edges ↔ gives e

-- The value is an identifier: the edge has this target.
abbrev pub IdGives : ReferenceRole → Option ObjectKind → Value → Relation
IdGives role expected value e =
    (content : List ℕ) × (id : ObjectId) × (value ≡ Value.bytes content)
    × (from_bytes content ≡ ok id)
    × (e ≡ record { role = role; expected_kind = expected; id = id })

-- The field `key` is there and gives the edge.
abbrev pub FieldGives : Fields → ℕ → (Value → Relation) → Relation
FieldGives m key gives e = (value : Value) × (optional_field m key ≡ some value) × gives value e

-- The value is a map which gives the edge.
abbrev pub MapGives : (Fields → Relation) → Value → Relation
MapGives gives value e = (m : Fields) × (value ≡ Value.map m) × gives m e

-- The value is an array one of whose values gives the edge.
abbrev pub ArrayGives : (Value → Relation) → Value → Relation
ArrayGives gives value e =
    (values : Items) × (value ≡ Value.array values)
    × ((x : Value) × In x (list_of values) × gives x e)

-- The numbers that a value can be.
abbrev pub NumberGives : (ℕ → Relation) → Value → Relation
NumberGives gives value e = (n : ℕ) × (value ≡ Value.unsigned n) × gives n e

-- The value is a map whose field `inner` is the identifier.
abbrev pub InnerGives : ReferenceRole → Option ObjectKind → ℕ → Value → Relation
InnerGives role expected inner = MapGives λ m. FieldGives m inner (IdGives role expected)

-- The value is a map that names the kind of its target, by number, and then the target.
abbrev pub TypedGives : ReferenceRole → Value → Relation
TypedGives role = MapGives λ m. FieldGives m 0 (
    NumberGives λ number e.
      (kind : ObjectKind) × (kind_of_code number ≡ some kind)
      × FieldGives m 1 (IdGives role (some kind)) e)

pub nothing-Reads : Reads (ok []) (λ e. ⊥)
nothing-Reads edges h e = ground arith

pub same-Reads :
    (r : Edges) (gives gives' : Relation)
    → ((e : ReferenceEdge) → gives e ↔ gives' e)
    → Reads r gives
    → Reads r gives'
same-Reads r gives gives' f reads edges h e = ground (arith, f e, reads edges h e)

pub join_nil-Reads : Reads (join []) (λ e. ⊥)
unfolding join
join_nil-Reads edges h e = ground arith

pub join-Reads :
    (part : Edges) (parts : List Edges) (gives rest : Relation)
    → Reads part gives
    → Reads (join parts) rest
    → Reads (join (part ∷ parts)) (λ e. gives e ⊎ rest e)
unfolding join
join-Reads part parts gives rest reads reads' edges h e =
    let (first, p, h₁) = >>=-ok part _ h in
    let (others, q, h₂) = >>=-ok (join parts) _ h₁ in
    let whole : first ++ others ≡ edges = ground arith in
    subst (λ es. In e es ↔ (gives e ⊎ rest e)) whole
      (ground (arith, In-append e first others, reads first p e, reads' others q e))

-- A loop over a list of values.
abbrev pub SomeGives : (Value → Relation) → List Value → Relation
SomeGives gives values e = (x : Value) × In x values × gives x e

pub edges_of-Reads :
    (edges : Value → Edges) (gives : Value → Relation) (values : List Value)
    → ((value : Value) → Reads (edges value) (gives value))
    → Reads (edges_of edges values) (SomeGives gives values)
unfolding edges_of
edges_of-Reads edges gives [] f out h e = (λ m. absurd (ground arith), λ (x, i, g). absurd i)
edges_of-Reads edges gives (value ∷ values) f out h e =
    let (first, p, h₁) = >>=-ok (edges value) _ h in
    let (others, q, h₂) = >>=-ok (edges_of edges values) _ h₁ in
    let whole : first ++ others ≡ out = ground arith in
    let now = f value first p e in
    let later = edges_of-Reads edges gives values f others q e in
    subst (λ es. In e es ↔ SomeGives gives (value ∷ values) e) whole
      (
        λ m. elim ((In-append e first others).0 m) [
          | inl i ↦ (value, inl refl, now.0 i)
          | inr i ↦ let (x, j, g) = later.0 i in (x, inr j, g)
        ],
        λ (x, i, g). (In-append e first others).1 (elim i [
          | inl same_x ↦ inl (now.1 (subst (λ v. gives v e) same_x g))
          | inr j ↦ inr (later.1 (x, j, g))
        ]),
      )

pub field-Reads :
    (m : Fields) (key : ℕ) (edges : Value → Edges) (gives : Value → Relation)
    → ((value : Value) → Reads (edges value) (gives value))
    → Reads (field m key >>= edges) (FieldGives m key gives)
unfolding field
field-Reads m key edges gives f out h e = elim (Option-cases (optional_field m key)) [
  | inl absent ↦ absurd (ground arith)
  | inr (value, there) ↦
      let reads = f value out (ground (arith, there)) e in
      (
        λ i. (value, there, reads.0 i),
        λ (v, there', g). reads.1 (subst (λ x. gives x e) (ground arith) g),
      )
]

pub optional-Reads :
    (m : Fields) (key : ℕ) (edges : Value → Edges) (gives : Value → Relation)
    → ((value : Value) → Reads (edges value) (gives value))
    → Reads (edges_if_some (optional_field m key) edges) (FieldGives m key gives)
optional-Reads m key edges gives f out h e = elim (Option-cases (optional_field m key)) [
  | inl absent ↦ (λ i. absurd (ground arith), λ (v, there, g). absurd (ground arith))
  | inr (value, there) ↦
      let reads = f value out (ground (arith, there)) e in
      (
        λ i. (value, there, reads.0 i),
        λ (v, there', g). reads.1 (subst (λ x. gives x e) (ground arith) g),
      )
]

pub join_one-Reads :
    (part : Edges) (gives : Relation) → Reads part gives → Reads (join (part ∷ [])) gives
join_one-Reads part gives reads =
    same-Reads (join (part ∷ [])) _ gives (λ e. ground arith)
      (join-Reads part [] gives (λ e. ⊥) reads join_nil-Reads)
