-- ===== src/Objects/Schema.antt =====
-- crates/rgit-objects/src/decode.rs: reading the fields of a canonical value. The last argument of
-- a reader is the number of the field that an error names.
pub mod Parts
pub mod Content
pub mod Changes
pub mod Operations
pub mod Trust
pub mod Evidence
pub mod Edges
pub mod Reads
pub mod Validate
use rethinking_git.Base.{
  ℕ, Bool, true, false, not, ◌||◌, ◌&&◌, ◌==◌, Option, none, some, List, [], ◌∷◌, length, any, all,
  Result, ok, err, ◌>>=◌, ◌>>◌, ok_or, ensure,
}
use Prim.Native.Nat.{Ordering}
use rethinking_git.Base.Order.{Ord, same}
use rethinking_git.Objects.Canonical.{Value, Items, Fields}
use rethinking_git.Objects.Error.{DecodeObjectError}
use rethinking_git.Objects.Id.{ObjectId, from_bytes}
use rethinking_git.Objects.Reference.{id_ord}

abbrev pub Check : Type 0
Check = Result DecodeObjectError (Unit {0})

abbrev pub wrong : ℕ → DecodeObjectError
wrong key = DecodeObjectError.field key

-- A loop that checks each element.
unfoldable pub each {ℓ} : {A : Type ℓ} → (A → Check) → List A → Check
each check [] = ok tt
each check (x ∷ xs) = check x >> each check xs

-- `iter().map(f).collect::<Result<Vec<_>, _>>()`
unfoldable pub collect {ℓ κ ι} :
    {E : Type κ} {A : Type ℓ} {B : Type ι} → (A → Result E B) → List A → Result E (List B)
collect f [] = ok []
collect f (x ∷ xs) = do y ← f x; ys ← collect f xs; ok (y ∷ ys)

-- `if let Some(value) = ..`
abbrev pub if_some {ℓ} : {A : Type ℓ} → Option A → (A → Check) → Check
if_some none check = ok tt
if_some (some a) check = check a

-- `is_some` and `is_none`.
abbrev pub is_some {ℓ} : {A : Type ℓ} → Option A → Bool
is_some none = false
is_some (some a) = true

-- `==` of two tests.
abbrev pub same_answer : Bool → Bool → Bool
same_answer true b = b
same_answer false b = not b

-- `<` of a derived order.
abbrev pub is_below {ℓ} : {K : Type ℓ} ⦃o : Ord K⦄ → K → K → Bool
is_below ⦃o⦄ a b = elim (o.cmp a b) [ Ordering.lt ↦ true | _ ↦ false ]

-- No two neighbours of `windows(2)` fail to increase.
unfoldable pub increases {ℓ} : {K : Type ℓ} ⦃o : Ord K⦄ → List K → Bool
increases [] = true
increases (a ∷ []) = true
increases (a ∷ b ∷ rest) = elim (is_below a b) [ true ↦ increases (b ∷ rest) | false ↦ false ]

abbrev pub list_of : Items → List Value
list_of Items.no_items = []
list_of (Items.item value values) = value ∷ list_of values

abbrev pub keys_of : Fields → List ℕ
keys_of Fields.no_fields = []
keys_of (Fields.field key value entries) = key ∷ keys_of entries

abbrev pub holds_key : List ℕ → ℕ → Bool
holds_key keys key = any (λ k. k == key) keys

unfoldable pub as_map : Value → Result DecodeObjectError Fields
as_map (Value.map entries) = ok entries
as_map _ = err DecodeObjectError.not_map

unfoldable pub optional_field : Fields → ℕ → Option Value
optional_field Fields.no_fields key = none
optional_field (Fields.field actual value entries) key =
    let later = optional_field entries key in
    elim (actual == key) [ true ↦ some value | false ↦ later ]

-- `map.iter().any(|(k, _)| *k == key)`
abbrev pub has_field : Fields → ℕ → Bool
has_field entries key = holds_key (keys_of entries) key

unfoldable pub field : Fields → ℕ → Result DecodeObjectError Value
unfolding optional_field
field entries key = ok_or (optional_field entries key) (wrong key)

unfoldable pub unsigned : Value → ℕ → Result DecodeObjectError ℕ
unsigned (Value.unsigned n) key = ok n
unsigned _ key = err (wrong key)

unfoldable pub bytes : Value → ℕ → Result DecodeObjectError (List ℕ)
bytes (Value.bytes content) key = ok content
bytes _ key = err (wrong key)

unfoldable pub text : Value → ℕ → Result DecodeObjectError (List ℕ)
text (Value.text content) key = ok content
text _ key = err (wrong key)

unfoldable pub array : Value → ℕ → Result DecodeObjectError (List Value)
array (Value.array values) key = ok (list_of values)
array _ key = err (wrong key)

unfoldable pub boolean : Value → ℕ → Result DecodeObjectError Bool
boolean (Value.bool answer) key = ok answer
boolean _ key = err (wrong key)

-- A reader whose value is not used.
abbrev pub checked {ℓ} : {A : Type ℓ} → Result DecodeObjectError A → Check
checked (ok a) = ok tt
checked (err e) = err e

unfoldable pub fixed_bytes : Value → ℕ → ℕ → Check
unfolding bytes
fixed_bytes value key n = do content ← bytes value key; ensure (length content == n) (wrong key)

abbrev pub all_zero : List ℕ → Bool
all_zero content = all (λ byte. byte == 0) content

unfoldable pub fixed_nonzero_bytes : Value → ℕ → ℕ → Check
unfolding fixed_bytes bytes
fixed_nonzero_bytes value key n = do
  fixed_bytes value key n
  content ← bytes value key
  ensure (not (all_zero content)) (wrong key)

unfoldable pub oid : Value → ℕ → Result DecodeObjectError ObjectId
unfolding bytes
oid value key = do
  content ← bytes value key
  elim (from_bytes content) [ ok id ↦ ok id | err e ↦ err (DecodeObjectError.object_id key) ]

unfoldable pub oid_array : Value → ℕ → Check
unfolding array oid each
oid_array value key = array value key >>= each (λ x. checked (oid x key))

unfoldable pub oid_values : Value → ℕ → Result DecodeObjectError (List ObjectId)
unfolding array oid collect
oid_values value key = array value key >>= collect (λ x. oid x key)

-- The loop of `ensure_unique_ids`, with the identifiers before the index.
unique_loop : List ObjectId → List ObjectId → ℕ → Check
unique_loop before [] key = ok tt
unique_loop before (id ∷ ids) key = do
  ensure (not (any (same id) before)) (wrong key)
  unique_loop (id ∷ before) ids key

unfoldable pub ensure_unique_ids : List ObjectId → ℕ → Check
unfolding unique_loop
ensure_unique_ids ids key = unique_loop [] ids key

unfoldable pub ensure_sorted_unique_ids : List ObjectId → ℕ → Check
unfolding increases
ensure_sorted_unique_ids ids key = ensure (increases ids) (wrong key)

-- The map has each required key, and no key but these and the optional ones.
abbrev pub exact_keys : List ℕ → List ℕ → Fields → Bool
exact_keys required optional entries =
    all (has_field entries) required
    && all (λ k. holds_key required k || holds_key optional k) (keys_of entries)

unfoldable pub exact_map : Value → List ℕ → List ℕ → ℕ → Result DecodeObjectError Fields
unfolding as_map
exact_map value required optional key = do
  entries ← as_map value
  ensure (exact_keys required optional entries) (wrong key)
  ok entries
