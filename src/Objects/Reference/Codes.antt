-- ===== src/Objects/Reference/Codes.antt =====
-- Kinds and their numbers.
use rethinking_git.Base.{ℕ, some, ◌≡◌, ◌↔◌, arith}
use rethinking_git.Objects.Reference.{ObjectKind, kind_code, kind_of_code}

-- A number is read as a kind exactly if it is that kind's number.
pub kind_of_code_iff : (n : ℕ) (k : ObjectKind) → (kind_of_code n ≡ some k) ↔ (kind_code k ≡ n)
unfolding kind_of_code kind_code
kind_of_code_iff n k = ground arith
