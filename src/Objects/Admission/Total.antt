-- ===== src/Objects/Admission/Total.antt =====
-- The edges of an admitted object.
use rethinking_git.Objects.Error.{DecodeObjectError}
use rethinking_git.Base.{Result, ℕ, List, ok, ◌≡◌, sym, subst, ◌∙◌, arith}
use rethinking_git.Objects.Canonical.{Fields, CanonicalLimits}
use rethinking_git.Objects.Reference.{ReferenceEdge}
use rethinking_git.Objects.Schema.{as_map}
use rethinking_git.Objects.Schema.Validate.{validate_fields}
use rethinking_git.Objects.Schema.Edges.Covered.{notes_check, references-Succeeds}
use rethinking_git.Objects.Admission.{DecodedObject, decode, object_references}
use rethinking_git.Objects.Admission.Verified.{decode-Admitted}
use rethinking_git.Objects.Unicode.{Unicode}

same_entries : (m m' : Fields) → ◌≡◌ {A = Result DecodeObjectError Fields} (ok m) (ok m') → m ≡ m'
same_entries m m' h = ground arith

-- The edges of an object that is admitted are read without an error, for every kind; of a release,
-- if its field 11 is missing or an identifier.
pub object_references_total :
    (unicode : Unicode) (bytes : List ℕ) (limits : CanonicalLimits) (d : DecodedObject) (m : Fields)
    → decode unicode bytes limits ≡ ok d
    → as_map d.value ≡ ok m
    → notes_check d.kind m ≡ ok tt
    → (edges : List ReferenceEdge) × (object_references d ≡ ok edges)
unfolding object_references
object_references_total unicode bytes limits d m h e n =
    let a = decode-Admitted unicode bytes limits d h in
    let one : a.entries ≡ m = same_entries a.entries m (sym a.is_map ∙ e) in
    references-Succeeds unicode d.kind d.schema_version d.value m e
      (subst (λ x. validate_fields unicode d.kind d.schema_version x ≡ ok tt) one a.valid) n
