-- ===== src/Store/Values.antt =====
-- crates/rgit-store/src/memory.rs: reading the fields of a decoded object, and matching the actions
-- of an operation with the updates of a publication.
use rethinking_git.Base.{
  ℕ, Bool, true, false, ◌&&◌, not, Option, none, some, List, [], ◌∷◌, ◌+◌, ◌^◌, Result, ok, err,
  ◌>>=◌, ◌>>◌, ok_or, ensure, if◌then◌else◌, ◌==◌, ltb, all,
}
use rethinking_git.Base.Order.{same}
use rethinking_git.Objects.Id.{ObjectId, from_bytes}
use rethinking_git.Objects.Canonical.{
  ℤ, pos, negsuc, Value, Items, Fields, unsigned, signed, bytes, text, array, map, bool, null,
  no_items, item, no_fields, field,
}
use rethinking_git.Objects.Reference.{
  ObjectKind, ReferenceKey, same_kind, kind_of_code, expected_kind, id_ord, line, change,
  operation_head, release, marker,
}
use rethinking_git.Store.Model.{
  StoreError, operation_mismatch, generation_overflow, ExpectedRef, absent, exact, RefUpdate,
  StoredObject,
}

abbrev pub value_map : Value → Option Fields
value_map (map fields) = some fields
value_map _ = none

abbrev pub value_array : Value → Option Items
value_array (array items) = some items
value_array _ = none

abbrev pub value_bytes : Value → Option (List ℕ)
value_bytes (bytes b) = some b
value_bytes _ = none

abbrev pub value_unsigned : Value → Option ℕ
value_unsigned (unsigned n) = some n
value_unsigned _ = none

unfoldable pub value_field : Fields → ℕ → Option Value
value_field no_fields key = none
value_field (field actual value rest) key =
    if actual == key then some value else value_field rest key

-- `and_then`
abbrev pub and_then : {A B : Type 0} → Option A → (A → Option B) → Option B
and_then (some a) f = f a
and_then none f = none

-- `Result::ok`
abbrev to_option : {E A : Type 0} → Result E A → Option A
to_option (ok a) = some a
to_option (err e) = none

-- `==` on byte strings.
unfoldable pub bytes_eq : List ℕ → List ℕ → Bool
bytes_eq [] [] = true
bytes_eq [] (y ∷ ys) = false
bytes_eq (x ∷ xs) [] = false
bytes_eq (x ∷ xs) (y ∷ ys) = (x == y) && bytes_eq xs ys

abbrev pub is_bytes : Option Value → List ℕ → Bool
is_bytes value expected = elim (and_then value value_bytes) [
  | none ↦ false
  | some b ↦ bytes_eq b expected
]

abbrev is_number : Option Value → ℕ → Bool
is_number value expected = elim (and_then value value_unsigned) [
  | none ↦ false
  | some n ↦ n == expected
]

integers_eq : ℤ → ℤ → Bool
integers_eq (pos m) (pos n) = m == n
integers_eq (pos m) (negsuc n) = false
integers_eq (negsuc m) (pos n) = false
integers_eq (negsuc m) (negsuc n) = m == n

-- The derived `PartialEq` of `Value`.
mutual
  unfolding integers_eq

  values_eq : Value → Value → Bool
  values_eq (unsigned m) (unsigned n) = m == n
  values_eq (signed m) (signed n) = integers_eq m n
  values_eq (bytes a) (bytes b) = bytes_eq a b
  values_eq (text a) (text b) = bytes_eq a b
  values_eq (array a) (array b) = items_eq a b
  values_eq (map a) (map b) = fields_eq a b
  values_eq (bool true) (bool b) = b
  values_eq (bool false) (bool b) = not b
  values_eq null null = true
  values_eq _ _ = false

  items_eq : Items → Items → Bool
  items_eq no_items no_items = true
  items_eq (item a rest) (item b rest') = values_eq a b && items_eq rest rest'
  items_eq _ _ = false

  fields_eq : Fields → Fields → Bool
  fields_eq no_fields no_fields = true
  fields_eq (field j a rest) (field k b rest') = (j == k) && (values_eq a b && fields_eq rest rest')
  fields_eq _ _ = false

same_value : Option Value → Option Value → Bool
unfolding values_eq
same_value none none = true
same_value (some a) (some b) = values_eq a b
same_value _ _ = false

abbrev pub object_id : Value → Option ObjectId
object_id value = and_then (value_bytes value) λ b. to_option (from_bytes b)

abbrev pub object_id_field : Fields → ℕ → Option ObjectId
object_id_field fields key = and_then (value_field fields key) object_id

abbrev pub is_object_id : Option ObjectId → ObjectId → Bool
is_object_id none id = false
is_object_id (some found) id = same found id

abbrev pub typed_ref : Value → Option (ObjectKind × ObjectId)
typed_ref value = and_then (value_map value) λ fields.
    and_then (and_then (value_field fields 0) value_unsigned) λ number.
      and_then (kind_of_code number)
        λ kind. and_then (object_id_field fields 1) λ id. some (kind, id)

unfoldable pub validate_line_predecessor : Fields → ExpectedRef → Result StoreError (Unit {0})
validate_line_predecessor state expected = do
  found ← ok_or (value_field state 6) operation_mismatch
  generation ← ok_or (value_unsigned found) operation_mismatch
  let previous = and_then (value_field state 7) object_id
  elim expected [
    | absent ↦
        ensure ((generation == 0) && elim previous [ none ↦ true | some _ ↦ false ])
          operation_mismatch
    | exact old ↦
        ensure (ltb (old.generation + 1) (2 ^ 64)) generation_overflow
        >> ensure ((generation == old.generation + 1) && is_object_id previous old.target)
            operation_mismatch
  ]

-- The fields of a declaration and of a line state that have to agree.
abbrev pub declared_fields : List (ℕ × ℕ)
declared_fields =
    (0, 2) ∷ (1, 3) ∷ (2, 4) ∷ (3, 5) ∷ (4, 6) ∷ (6, 8) ∷ (7, 9) ∷ (8, 10) ∷ (9, 11) ∷ []

unfoldable pub line_action_matches : Value → Fields → Bool
unfolding value_field same_value
line_action_matches action state = elim (value_map action) [
  | none ↦ false
  | some fields ↦
      if is_number (value_field fields 0) 1
      then elim (and_then (value_field fields 3) value_map) [
        | none ↦ false
        | some declaration ↦
            all (λ pair. same_value (value_field declaration (pair.0)) (value_field state (pair.1)))
              declared_fields
            && same_value (value_field declaration 5) (value_field state 7)
      ]
      else false
]

same_typed : Option (ObjectKind × ObjectId) → Option (ObjectKind × ObjectId) → Bool
same_typed none none = true
same_typed (some (j, a)) (some (k, b)) = same_kind j k && same a b
same_typed _ _ = false

abbrev before_of : RefUpdate → Option (ObjectKind × ObjectId)
before_of update = elim update.expected [
  | absent ↦ none
  | exact state ↦ some (expected_kind update.key, state.target)
]

unfoldable pub transition_matches : Value → RefUpdate → Bool
unfolding value_field same_typed
transition_matches action update = elim (value_map action) [
  | none ↦ false
  | some fields ↦
      is_number (value_field fields 0) 0
      && (same_typed (and_then (value_field fields 1) typed_ref) (before_of update)
          && same_typed (and_then (value_field fields 2) typed_ref)
              (some (expected_kind update.key, update.target)))
]

unfoldable pub reference_identity_matches : ReferenceKey → StoredObject → Bool
unfolding value_field
reference_identity_matches key target = elim (value_map target.value) [
  | none ↦ false
  | some fields ↦ elim key [
    | line id ↦ is_bytes (value_field fields 3) id
    | release id ↦ is_bytes (value_field fields 3) id
    | change id ↦ is_bytes (value_field fields 3) id
    | operation_head ↦ true
    | marker _ ↦ true
  ]
]
