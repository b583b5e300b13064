-- ===== src/Objects/Schema/Edges/Loops.antt =====
-- The schemas that check identifiers in a loop over an array: each value of the array gives its
-- edges without an error.
use rethinking_git.Base.{
  ok, ◌≡◌, refl, arith, ◌>>=◌, ◌>>◌, some, ℕ, ◌+◌, List, [], ◌∷◌, Option, >>=-ok, ensure-ok, not,
}
use rethinking_git.Base.Set
use rethinking_git.Base.Order.{list_ord, nat_ord}
use rethinking_git.Objects.Path.{portable_case_fold}
use rethinking_git.Objects.Canonical.{Value}
use rethinking_git.Objects.Id.{ObjectId}
use rethinking_git.Objects.Reference.{id_ord}
use rethinking_git.Objects.Unicode.{Unicode}
use rethinking_git.Objects.Schema.{
  Check, field, each, checked, exact_map, oid, text, unsigned, bytes, fixed_bytes, wrong,
}
use rethinking_git.Objects.Schema.Parts.{public_key, encoded_value}
use rethinking_git.Objects.Schema.Content.{
  chunk_loop, manifest_loop, check_entry, portable_segment, is_later,
}
use rethinking_git.Objects.Schema.Trust.{key_loop}
use rethinking_git.Objects.Schema.Evidence.{check_view_lines, mapping_loop}
use rethinking_git.Objects.Schema.Edges.Shared.{inner_oid}

pub chunk_loop-each :
    (total sum : ℕ) (values : List Value)
    → chunk_loop total values ≡ ok sum
    → each (inner_oid (0 ∷ 1 ∷ []) [] 0 5) values ≡ ok tt
unfolding chunk_loop each
chunk_loop-each total sum [] h = refl
chunk_loop-each total sum (value ∷ values) h =
    let (m, e, h₁) = >>=-ok (exact_map value (0 ∷ 1 ∷ []) [] 5) _ h in
    let (id, e₁, h₂) = >>=-ok (field m 0) _ h₁ in
    let (u, e₂, h₃) = >>=-ok (checked (oid id 5)) _ h₂ in
    let (number, e₃, h₄) = >>=-ok (field m 1) _ h₃ in
    let (size, e₄, h₅) = >>=-ok (unsigned number 5) _ h₄ in
    ground (arith, e, e₁, e₂, chunk_loop-each (total + size) sum values)

pub check_view_lines-each :
    (line_ids : List (List ℕ)) (values : List Value)
    → check_view_lines line_ids values ≡ ok tt
    → each (inner_oid (0 ∷ 1 ∷ 2 ∷ []) [] 2 6) values ≡ ok tt
unfolding check_view_lines each
check_view_lines-each line_ids [] h = refl
check_view_lines-each line_ids (value ∷ values) h =
    let (m, e, h₁) = >>=-ok (exact_map value (0 ∷ 1 ∷ 2 ∷ []) [] 6) _ h in
    let (line, e₁, h₂) = >>=-ok (field m 0) _ h₁ in
    let (u, e₂, h₃) = >>=-ok (fixed_bytes line 6 16) _ h₂ in
    let (line_id, e₃, h₄) = >>=-ok (bytes line 6) _ h₃ in
    ground (arith, e, check_view_lines-each (Set.insert line_id line_ids) values)

-- Both identifiers of a mapping.
abbrev pub check_mapping : Value → Check
check_mapping value = exact_map value (0 ∷ 1 ∷ []) [] 5 >>= λ m.
    (field m 0 >>= λ a. checked (oid a 5)) >> (field m 1 >>= λ b. checked (oid b 5))

pub mapping_loop-each :
    (old new : List ObjectId) (values : List Value)
    → mapping_loop old new values ≡ ok tt
    → each check_mapping values ≡ ok tt
unfolding mapping_loop each
mapping_loop-each old new [] h = refl
mapping_loop-each old new (value ∷ values) h =
    let (m, e, h₁) = >>=-ok (exact_map value (0 ∷ 1 ∷ []) [] 5) _ h in
    let (first, e₁, h₂) = >>=-ok (field m 0) _ h₁ in
    let (a, e₂, h₃) = >>=-ok (oid first 5) _ h₂ in
    let (second, e₃, h₄) = >>=-ok (field m 1) _ h₃ in
    let (b, e₄, h₅) = >>=-ok (oid second 5) _ h₄ in
    ground
      (arith, e, e₁, e₂, e₃, e₄, mapping_loop-each (Set.insert a old) (Set.insert b new) values)

pub key_loop-each :
    (algorithm key : ℕ) (key_ids out : List (List ℕ)) (values : List Value)
    → key_loop algorithm key key_ids values ≡ ok out
    → each (λ value. checked (public_key value key)) values ≡ ok tt
unfolding key_loop each
key_loop-each algorithm key key_ids out [] h = refl
key_loop-each algorithm key key_ids out (value ∷ values) h =
    let ((actual, key_id), e, h₁) = >>=-ok (public_key value key) _ h in
    ground (arith, e, key_loop-each algorithm key (Set.insert key_id key_ids) out values)

module _ (unicode : Unicode) where
  -- What the loop checks of an entry.
  abbrev pub check_manifest_entry : Value → Check
  check_manifest_entry entry =
      exact_map entry (0 ∷ 1 ∷ 2 ∷ 4 ∷ []) (3 ∷ []) 3 >>= check_entry unicode

  pub manifest_loop-each :
      (previous : Option (List ℕ)) (folded : List (List ℕ)) (values : List Value)
      → manifest_loop unicode previous folded values ≡ ok tt
      → each check_manifest_entry values ≡ ok tt
  unfolding manifest_loop each
  manifest_loop-each previous folded [] h = refl
  manifest_loop-each previous folded (value ∷ values) h =
      let (m, e, h₁) = >>=-ok (exact_map value (0 ∷ 1 ∷ 2 ∷ 4 ∷ []) (3 ∷ []) 3) _ h in
      let (name_value, e₁, h₂) = >>=-ok (field m 0) _ h₁ in
      let (name, e₂, h₃) = >>=-ok (text name_value 3) _ h₂ in
      let (segment, e₃, h₄) = >>=-ok (portable_segment unicode name 3) _ h₃ in
      let folded_name = portable_case_fold unicode segment in
      let (_, h₅) = ensure-ok (not (Set.contains folded_name folded)) (wrong 3) _ h₄ in
      let (encoded, e₄, h₆) = >>=-ok (encoded_value unicode.is_nfc (Value.text name)) _ h₅ in
      let (_, h₇) = ensure-ok (is_later previous encoded) (wrong 3) _ h₆ in
      let (u, e₅, h₈) = >>=-ok (check_entry unicode m) _ h₇ in
      ground
        (arith, e, e₅, manifest_loop-each (some encoded) (Set.insert folded_name folded) values h₈)
