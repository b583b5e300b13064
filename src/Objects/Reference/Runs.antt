-- ===== src/Objects/Reference/Runs.antt =====
-- Runs of the kinds.
use rethinking_git.Base.{◌↔◌, ◌≡◌, some}
use rethinking_git.Objects.Reference.{snapshot, kind_code, kind_of_code}
use rethinking_git.Objects.Reference.Codes.{kind_of_code_iff}

kind_of_code_iff_example : (kind_of_code 6 ≡ some snapshot) ↔ (kind_code snapshot ≡ 6)
kind_of_code_iff_example = kind_of_code_iff 6 snapshot
