-- ===== src/Objects/Schema/Edges/Shared.antt =====
-- Values that several kinds share, once checked, give their edges without an error.
use rethinking_git.Base.{
  ℕ, Option, none, some, List, [], ◌∷◌, ok, ◌>>=◌, ◌≡◌, refl, subst, >>=-ok, ensure-ok, arith,
}
use rethinking_git.Objects.Canonical.{Value, Fields}
use rethinking_git.Objects.Reference.{ObjectKind, ReferenceRole}
use rethinking_git.Objects.Schema.{
  Check, checked, wrong, as_map, field, unsigned, array, oid, exact_map, exact_keys, fixed_bytes,
  each, if_some,
}
use rethinking_git.Objects.Schema.Parts.{policy_ref, read_kind, typed_ref, typed_ref_kind, at_field}
use rethinking_git.Objects.Schema.Edges.Build.{
  Edges, edges_of, oid_edge, inner_edge, typed_edge, edges_if_some,
}
use rethinking_git.Objects.Schema.Edges.Total.{
  Succeeds, checked-Succeeds, >>-ok, oid_edge-Succeeds, edges_of-Succeeds,
}

pub exact_map-as_map :
    (value : Value) (required optional : List ℕ) (key : ℕ) (m : Fields)
    → exact_map value required optional key ≡ ok m
    → as_map value ≡ ok m
unfolding exact_map
exact_map-as_map value required optional key m h =
    let (m', e, h₁) = >>=-ok (as_map value) _ h in
    let (_, h₂) = ensure-ok (exact_keys required optional m') (wrong key) (ok m') h₁ in
    let same_map : m' ≡ m = ground arith in subst (λ x. as_map value ≡ ok x) same_map e

pub inner_edge-Succeeds :
    (role : ReferenceRole) (expected : Option ObjectKind) (inner key : ℕ) (value : Value)
    (m : Fields)
    → as_map value ≡ ok m
    → (field m inner >>= λ content. checked (oid content key)) ≡ ok tt
    → Succeeds (inner_edge role expected inner key value)
unfolding inner_edge
inner_edge-Succeeds role expected inner key value m e h =
    let (content, e', h₁) = >>=-ok (field m inner) _ h in
    let (edges, made) = oid_edge-Succeeds role expected key content h₁ in
    (edges, ground (arith, e, e', made))

pub policy_edge-Succeeds :
    (role : ReferenceRole) (key : ℕ) (value : Value)
    → policy_ref value key ≡ ok tt
    → Succeeds (inner_edge role (some ObjectKind.policy) 1 key value)
unfolding policy_ref
policy_edge-Succeeds role key value h =
    let (m, e, h₁) = >>=-ok (exact_map value (0 ∷ 1 ∷ []) [] key) _ h in
    let (policy, _, h₂) = >>=-ok (field m 0) _ h₁ in
    let (_, h₃) = >>-ok (fixed_bytes policy key 16) _ h₂ in
    inner_edge-Succeeds role (some ObjectKind.policy) 1 key value m
      (exact_map-as_map value (0 ∷ 1 ∷ []) [] key m e) h₃

pub typed_kind_edge-Succeeds :
    (role : ReferenceRole) (key : ℕ) (value : Value) (kind : ObjectKind)
    → typed_ref_kind value key ≡ ok kind
    → Succeeds (typed_edge role key value)
unfolding typed_ref_kind typed_edge
typed_kind_edge-Succeeds role key value kind h =
    let (m, e, h₁) = >>=-ok (exact_map value (0 ∷ 1 ∷ []) [] key) _ h in
    let (number, e₁, h₂) = >>=-ok (field m 0) _ h₁ in
    let (code, e₂, h₃) = >>=-ok (unsigned number key) _ h₂ in
    let (k, e₃, h₄) = >>=-ok (read_kind code) _ h₃ in
    let (id, e₄, h₅) = >>=-ok (field m 1) _ h₄ in
    let (checks, _) = >>-ok (checked (oid id key)) _ h₅ in
    let (edges, made) = oid_edge-Succeeds role (some k) key id checks in
    (edges, ground (arith, exact_map-as_map value (0 ∷ 1 ∷ []) [] key m e, e₁, e₂, e₃, e₄, made))

pub typed_edge-Succeeds :
    (role : ReferenceRole) (key : ℕ) (value : Value)
    → typed_ref value key ≡ ok tt
    → Succeeds (typed_edge role key value)
unfolding typed_ref
typed_edge-Succeeds role key value h =
    let (kind, e) = checked-Succeeds (typed_ref_kind value key) h in
    typed_kind_edge-Succeeds role key value kind e

-- A typed reference in a field.
pub typed_field-Succeeds :
    (role : ReferenceRole) (m : Fields) (key : ℕ)
    → at_field typed_ref m key ≡ ok tt
    → Succeeds (field m key >>= typed_edge role key)
typed_field-Succeeds role m key h =
    let (value, e, h₁) = >>=-ok (field m key) _ h in
    let (edges, made) = typed_edge-Succeeds role key value h₁ in (edges, ground (arith, e, made))

-- The values of an array that is in a field.
pub field_edges-Succeeds :
    (m : Fields) (key : ℕ) (check : Value → Check) (edges : Value → Edges)
    → ((value : Value) → check value ≡ ok tt → Succeeds (edges value))
    → (at_field array m key >>= each check) ≡ ok tt
    → Succeeds (at_field array m key >>= edges_of edges)
field_edges-Succeeds m key check edges f h =
    let (values, e, h₁) = >>=-ok (at_field array m key) _ h in
    let (all_edges, made) = edges_of-Succeeds check edges values f h₁ in
    (all_edges, ground (arith, e, made))

-- Typed references in an array.
pub typed_array-Succeeds :
    (role : ReferenceRole) (m : Fields) (key : ℕ)
    → (at_field array m key >>= each (λ value. typed_ref value key)) ≡ ok tt
    → Succeeds (at_field array m key >>= edges_of (typed_edge role key))
typed_array-Succeeds role m key h =
    field_edges-Succeeds m key (λ value. typed_ref value key) (typed_edge role key)
      (λ value. typed_edge-Succeeds role key value) h

-- An identifier at a key of a map with known keys.
abbrev pub inner_oid : List ℕ → List ℕ → ℕ → ℕ → Value → Check
inner_oid required optional inner key value = exact_map value required optional key >>= λ m.
    field m inner >>= λ content. checked (oid content key)

pub inner_oid-Succeeds :
    (role : ReferenceRole) (expected : Option ObjectKind) (required optional : List ℕ)
    (inner key : ℕ) (value : Value)
    → inner_oid required optional inner key value ≡ ok tt
    → Succeeds (inner_edge role expected inner key value)
inner_oid-Succeeds role expected required optional inner key value h =
    let (m, e, h₁) = >>=-ok (exact_map value required optional key) _ h in
    inner_edge-Succeeds role expected inner key value m
      (exact_map-as_map value required optional key m e) h₁

-- An edge that is there only if the field is.
pub optional_edge-Succeeds :
    (role : ReferenceRole) (expected : Option ObjectKind) (key : ℕ) (value : Option Value)
    → if_some value (λ v. checked (oid v key)) ≡ ok tt
    → Succeeds (edges_if_some value (oid_edge role expected key))
optional_edge-Succeeds role expected key none h = ([], refl)
optional_edge-Succeeds role expected key (some value) h =
    oid_edge-Succeeds role expected key value h
