-- ===== src/FailureStorage/Created.antt =====
-- ctest_failure_create_va of src/exec/failure.c: the failure that it makes.
use ctest.Prelude.{ℕ, ◌^◌, ◌<◌, ◌≡◌, ap, ◌∙◌, sym, true, List, ◌++◌, Option, none, some, length}
use ctest.FailureStorage.{
  Location, StackFrame, Failure, description_size, storage_size, failure_storage_size, Write,
  apply_writes, and_then, storage_format, copy_description, failure_storage_format, created,
  ctest_failure_create_va,
}
use ctest.FailureStorage.Layout.{within}
use ctest.FailureStorage.Whole.{ctest_failure_create_va-within}
use ctest.FailureStorage.Image.{failure_at}
use ctest.FailureStorage.Parts.{Makes}
use ctest.FailureStorage.Laid.{failure_storage_format-failure_at}

-- The failure with `text` for its description, or without one.
abbrev pub described_as : ℕ → Option (List ℕ) → Option Location → Option (List StackFrame) → Failure
described_as stage text location stacktrace = record {
  stage = stage;
  description = text;
  location = location;
  stacktrace = stacktrace;
}

-- What is created is what is formatted.
created-Makes :
    (text : Option (List ℕ)) (part : Option ℕ × List Write) (block after : List ℕ) (rc : ℕ)
    (writes : List Write)
    → created text part ≡ some writes
    → Makes (and_then part (λ rc. (some rc, copy_description text))) block rc after
    → apply_writes writes block ≡ after
unfolding created and_then
created-Makes text (none, ws) block after rc writes e (done, made) = absurd (cc e)
created-Makes text (some o, ws) block after rc writes e (done, made) =
    let same : ws ++ copy_description text ≡ writes = cc e in
    ap (λ (all : List Write). apply_writes all block) (sym same) ∙ made

-- Once its block is allocated, ctest_failure_create_va makes of it the block of a failure with the
-- stage, the location, the stack trace, and the printed text as its description, each with a copy
-- of its texts, and it writes nothing outside the block; the description is NULL if it cannot be
-- printed. The size of the block is below 2^31.
pub ctest_failure_create_va-failure_at :
    (buf stage : ℕ) (text : Option (List ℕ)) (l : Option Location)
    (frames : Option (List StackFrame)) (block : List ℕ)
    → storage_size (description_size text) l frames < 2 ^ 31
    → length block ≡ storage_size (description_size text) l frames
    → (writes : List Write) × (ctest_failure_create_va true buf stage text l frames ≡ some writes)
      × (within (storage_size (description_size text) l frames) writes ≡ true)
      × (apply_writes writes block ≡ failure_at buf (described_as stage text l frames))
unfolding ctest_failure_create_va failure_storage_format failure_storage_size
ctest_failure_create_va-failure_at buf stage text l frames block small sized =
    let f : Failure = described_as stage text l frames in
    let size : ℕ = storage_size (description_size text) l frames in
    let (writes, made, inside) = ctest_failure_create_va-within buf stage text l frames small in
    (
      writes,
      made,
      inside,
      created-Makes text (storage_format buf size stage (description_size text) l frames) block
          (failure_at buf f) size writes made
          (failure_storage_format-failure_at buf f block small sized),
    )
