-- ===== src/Objects/Path/Runs.antt =====
-- Runs of path validation.
use rethinking_git.Base.{
  ℕ, ◌+◌, ◌≤◌, ◌<◌, Bool, true, false, List, [], ◌∷◌, length, ok, err, ◌≡◌, ◌≢◌, ◌↔◌, refl, In, All,
  leb, if◌then◌else◌, ◌&&◌, map, Result,
}
use rethinking_git.Objects.Path.{PathSegment, windows_reserved, unsafe, validate, new_path}
use rethinking_git.Objects.Path.Portable.{materialized, IsPortable, validate_safe, new_path_iff}
use rethinking_git.Objects.Unicode.{Unicode}

abbrev to_lower : ℕ → ℕ
to_lower c = if leb b'A' c && leb c b'Z' then c + 32 else c

-- ASCII, where every text is in normal form.
abbrev ascii : Unicode
ascii = record {
  is_utf8 = λ text. true;
  is_nfc = λ text. true;
  nfc = λ text. text;
  case_fold = λ text. map to_lower text;
}

abbrev segment_of : List ℕ → PathSegment
segment_of content = record { content = content }

src_accepted :
    validate ascii (b's' ∷ b'r' ∷ b'c' ∷ []) true ≡ ok (segment_of (b's' ∷ b'r' ∷ b'c' ∷ []))
unfolding validate rethinking_git.Objects.Canonical.Decode.bytes_discrete
    native.Mathlib.Decide.ℕ_discrete rethinking_git.Base.list_contains
src_accepted = refl

device_refused : validate ascii (b'C' ∷ b'o' ∷ b'n' ∷ b'.' ∷ b'c' ∷ []) true ≡ err windows_reserved
unfolding validate rethinking_git.Objects.Canonical.Decode.bytes_discrete
    native.Mathlib.Decide.ℕ_discrete rethinking_git.Base.list_contains
device_refused = refl

dots_refused : validate ascii (b'.' ∷ b'.' ∷ []) false ≡ err unsafe
unfolding validate rethinking_git.Objects.Canonical.Decode.bytes_discrete
    native.Mathlib.Decide.ℕ_discrete rethinking_git.Base.list_contains
dots_refused = refl

dot_end_refused : validate ascii (b'a' ∷ b'.' ∷ []) true ≡ err windows_reserved
unfolding validate rethinking_git.Objects.Canonical.Decode.bytes_discrete
    native.Mathlib.Decide.ℕ_discrete rethinking_git.Base.list_contains
dot_end_refused = refl

abbrev src : List ℕ
src = b's' ∷ b'r' ∷ b'c' ∷ []

validate_safe_example :
    (src ≡ src)
    × (0 < length src)
    × (length src ≤ 255)
    × ((c : ℕ) → In c src → (c ≢ 0) × (c ≢ b'/') × (c ≢ b'\\'))
    × (src ≢ b'.' ∷ [])
    × (src ≢ b'.' ∷ b'.' ∷ [])
validate_safe_example = validate_safe ascii src true (segment_of src) src_accepted

new_path_iff_example :
    (new_path ascii (segment_of src ∷ segment_of src ∷ [])
      ≡ ok (segment_of src ∷ segment_of src ∷ []))
    ↔ ((◌≡◌ {A = List PathSegment}
          (segment_of src ∷ segment_of src ∷ [])
          (segment_of src ∷ segment_of src ∷ []))
        × All (IsPortable ascii) (segment_of src ∷ segment_of src ∷ [])
        × (length (materialized (segment_of src ∷ segment_of src ∷ [])) ≤ 1023))
new_path_iff_example =
    new_path_iff ascii (segment_of src ∷ segment_of src ∷ []) (segment_of src ∷ segment_of src ∷ [])
