-- ===== src/Objects/Unicode.antt =====
-- What the crates unicode-normalization and unicode-casefold and the standard library compute on
-- texts, as crates/rgit-objects uses them. A text is the list of its UTF-8 bytes.
use rethinking_git.Base.{ℕ, Bool, List}

-- `is_utf8` is `String::from_utf8`, `is_nfc` the test of a text against its normal form, `nfc` that
-- form, and `case_fold` default case folding.
pub record Unicode : Type 0 where
  pub is_utf8 : List ℕ → Bool
  pub is_nfc : List ℕ → Bool
  pub nfc : List ℕ → List ℕ
  pub case_fold : List ℕ → List ℕ
