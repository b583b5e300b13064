-- ===== src/Objects/Path.antt =====
-- crates/rgit-objects/src/path.rs: path segments and portable paths. Every character that the
-- source tests for is ASCII, and in UTF-8 no other character has a byte below 0x80, so a test of
-- the characters is a test of the bytes.
pub mod Portable
mod Runs
use rethinking_git.Base.{
  ℕ, ◌+◌, ◌^◌, Bool, true, false, ◌&&◌, ◌||◌, not, List, [], ◌∷◌, length, any, ltb, leb, ◌==◌,
  if◌then◌else◌, Result, ok, err, ◌>>=◌, ◌>>◌, ensure, holds, list_contains,
}
use rethinking_git.Objects.Canonical.Decode.{bytes_discrete}
use rethinking_git.Objects.Unicode.{Unicode}

pub data PathError : Type 0 where
  empty non_normalized unsafe non_portable_character windows_reserved : PathError
  segment_too_long path_too_long : PathError

-- A `String`.
pub record PathSegment : Type 0 where
  pub content : List ℕ

-- `matches!(value, "." | "..") || value.contains(['\0', '/', '\\'])`
is_unsafe : List ℕ → Bool
is_unsafe value =
    list_contains bytes_discrete value ((b'.' ∷ []) ∷ (b'.' ∷ b'.' ∷ []) ∷ [])
    || any (λ c. c == 0 || c == b'/' || c == b'\\') value

is_nonportable_character : ℕ → Bool
is_nonportable_character c =
    (c == b'<' || c == b'>' || c == b':' || c == b'"' || c == b'|' || c == b'?' || c == b'*')
    || (leb c 0x1f || c == 0x7f)

-- `trim_end_matches([' ', '.'])`
trim_end : List ℕ → List ℕ
trim_end [] = []
trim_end (c ∷ cs) =
    let rest = trim_end cs in if length rest == 0 && (c == b' ' || c == b'.') then [] else c ∷ rest

-- `split('.').next()`
stem : List ℕ → List ℕ
stem [] = []
stem (c ∷ cs) = let rest = stem cs in if c == b'.' then [] else c ∷ rest

-- A device name with a number: 1 to 9, or a superscript 1, 2 or 3, which takes two bytes.
abbrev numbered : ℕ → ℕ → ℕ → List (List ℕ)
numbered a b c =
    (a ∷ b ∷ c ∷ b'1' ∷ [])
    ∷ (a ∷ b ∷ c ∷ b'2' ∷ [])
    ∷ (a ∷ b ∷ c ∷ b'3' ∷ [])
    ∷ (a ∷ b ∷ c ∷ b'4' ∷ [])
    ∷ (a ∷ b ∷ c ∷ b'5' ∷ [])
    ∷ (a ∷ b ∷ c ∷ b'6' ∷ [])
    ∷ (a ∷ b ∷ c ∷ b'7' ∷ [])
    ∷ (a ∷ b ∷ c ∷ b'8' ∷ [])
    ∷ (a ∷ b ∷ c ∷ b'9' ∷ [])
    ∷ (a ∷ b ∷ c ∷ 0xc2 ∷ 0xb9 ∷ [])
    ∷ (a ∷ b ∷ c ∷ 0xc2 ∷ 0xb2 ∷ [])
    ∷ (a ∷ b ∷ c ∷ 0xc2 ∷ 0xb3 ∷ [])
    ∷ []

is_windows_reserved : List ℕ → Bool
unfolding stem
is_windows_reserved value =
    list_contains bytes_discrete (stem value) (
      (b'c' ∷ b'o' ∷ b'n' ∷ [])
      ∷ (b'p' ∷ b'r' ∷ b'n' ∷ [])
      ∷ (b'a' ∷ b'u' ∷ b'x' ∷ [])
      ∷ (b'n' ∷ b'u' ∷ b'l' ∷ [])
      ∷ [])
    || list_contains bytes_discrete (stem value) (numbered b'c' b'o' b'm')
    || list_contains bytes_discrete (stem value) (numbered b'l' b'p' b't')

module _ (unicode : Unicode) where
  open unicode use {nfc, case_fold}

  -- `portable_case_fold`, as a function on texts.
  fold_text : List ℕ → List ℕ
  fold_text value = nfc (case_fold value)

  -- The portable profile, which `validate` adds for `portable`.
  check_portable : List ℕ → Result PathError (Unit {0})
  unfolding is_nonportable_character trim_end is_windows_reserved fold_text
  check_portable value = do
    ensure (not (any is_nonportable_character value)) non_portable_character
    ensure
        (not (
          not (holds (bytes_discrete (trim_end value) value))
          || is_windows_reserved (fold_text value)))
        windows_reserved

  pub validate : List ℕ → Bool → Result PathError PathSegment
  unfolding is_unsafe check_portable
  validate value portable = do
    ensure (not (length value == 0)) empty
    ensure (not (ltb 255 (length value))) segment_too_long
    ensure (holds (bytes_discrete (nfc value) value)) non_normalized
    ensure (not (is_unsafe value)) unsafe
    (if portable then check_portable value else ok tt)
    ok (record { content = value })

  abbrev pub new_portable : List ℕ → Result PathError PathSegment
  new_portable value = validate value true

  pub portable_case_fold : PathSegment → List ℕ
  portable_case_fold segment = fold_text segment.content

  pub ensure_portable : PathSegment → Result PathError (Unit {0})
  unfolding validate
  ensure_portable segment = validate segment.content true >>= λ _. ok tt

  -- The loop of `PortablePath::new`; `usize` is 64 bits wide.
  path_loop : ℕ → List PathSegment → Result PathError (Unit {0})
  unfolding ensure_portable
  path_loop encoded_len [] = ok tt
  path_loop encoded_len (segment ∷ segments) = do
    ensure_portable segment
    let separated = encoded_len + (if encoded_len == 0 then 0 else 1)
    ensure (ltb separated (2 ^ 64)) path_too_long
    let longer = separated + length segment.content
    ensure (ltb longer (2 ^ 64)) path_too_long
    ensure (not (ltb 1023 longer)) path_too_long
    path_loop longer segments

  -- `PortablePath::new`: the segments of a path.
  pub new_path : List PathSegment → Result PathError (List PathSegment)
  unfolding path_loop
  new_path segments = path_loop 0 segments >> ok segments
