-- ===== src/Objects/Signature.antt =====
-- crates/rgit-objects/src/types.rs: the algorithms and the purposes of signatures.
use rethinking_git.Base.{ℕ, ◌==◌, if◌then◌else◌, Option, none, some}

pub data SignatureAlgorithm : Type 0 where
  ed25519 : SignatureAlgorithm

-- `SignatureAlgorithm::try_from`
unfoldable pub algorithm_of_code : ℕ → Option SignatureAlgorithm
algorithm_of_code value = if value == 0 then some ed25519 else none

pub data SignaturePurpose : Type 0 where
  line_state operation marker release policy repository_root : SignaturePurpose
  identity group_membership conflict_resolution review_evidence : SignaturePurpose
  approval_evidence ci_evidence policy_decision_evidence : SignaturePurpose
  build_provenance view migration : SignaturePurpose

-- `purpose as u64`
unfoldable pub purpose_code : SignaturePurpose → ℕ
purpose_code line_state = 0
purpose_code operation = 1
purpose_code marker = 2
purpose_code release = 3
purpose_code policy = 4
purpose_code repository_root = 5
purpose_code identity = 6
purpose_code group_membership = 7
purpose_code conflict_resolution = 8
purpose_code review_evidence = 9
purpose_code approval_evidence = 10
purpose_code ci_evidence = 11
purpose_code policy_decision_evidence = 12
purpose_code build_provenance = 13
purpose_code view = 14
purpose_code migration = 15

-- `SignaturePurpose::try_from` of a number.
unfoldable pub purpose_of_code : ℕ → Option SignaturePurpose
purpose_of_code value =
    if value == 0
    then some line_state
    else if value == 1
    then some operation
    else if value == 2
    then some marker
    else if value == 3
    then some release
    else if value == 4
    then some policy
    else if value == 5
    then some repository_root
    else if value == 6
    then some identity
    else if value == 7
    then some group_membership
    else if value == 8
    then some conflict_resolution
    else if value == 9
    then some review_evidence
    else if value == 10
    then some approval_evidence
    else if value == 11
    then some ci_evidence
    else if value == 12
    then some policy_decision_evidence
    else if value == 13
    then some build_provenance
    else if value == 14
    then some view
    else if value == 15
    then some migration
    else none
