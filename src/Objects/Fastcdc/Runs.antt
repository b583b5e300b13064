-- ===== src/Objects/Fastcdc/Runs.antt =====
-- Runs of the chunker.
use rethinking_git.Base.{arith, ◌<◌, ◌≡◌, All, [], ◌∷◌, ◌++◌, concat, length}
use rethinking_git.Objects.Fastcdc.{new, push, fastcdc_v0_chunks, max_size}
use rethinking_git.Objects.Fastcdc.Boundaries.{InRange, push-append, concat-chunks, push-InRange}

concat-chunks_example : concat (fastcdc_v0_chunks (1 ∷ 2 ∷ 3 ∷ [])) ≡ 1 ∷ 2 ∷ 3 ∷ []
concat-chunks_example = concat-chunks (1 ∷ 2 ∷ 3 ∷ [])

push-append_example : push new (1 ∷ 2 ∷ 3 ∷ []) ≡ (
  (push (push new (1 ∷ [])).0 (2 ∷ 3 ∷ [])).0,
  (push new (1 ∷ [])).1 ++ (push (push new (1 ∷ [])).0 (2 ∷ 3 ∷ [])).1,
)
push-append_example = push-append new (1 ∷ []) (2 ∷ 3 ∷ [])

push-InRange_example :
    All InRange (push new (1 ∷ 2 ∷ [])).1 × (length (push new (1 ∷ 2 ∷ [])).0.pending < max_size)
push-InRange_example = push-InRange new (1 ∷ 2 ∷ []) (omega arith)
