-- ===== src/DirectRunner/Captured.antt =====
-- The output that src/exec/direct_runner.c reads back from the temporary file.
use ctest.Prelude.{
  ℕ, zero, suc, ◌+◌, ◌-◌, ◌≤◌, ◌≡◌, refl, ap, ◌∙◌, true, List, ◌∷◌, ◌++◌, some, length, drop,
  replicate, arith,
}
use ctest.Pipe.{Answer, taken, length-taken-le}
use ctest.Output.{Output, ctest_output_create}
use ctest.Output.Reader.{store}
use ctest.ConsoleReporter.Report.{report_output}
use ctest.ConsoleReporter.Shown.{IsText, whole_text, report_output_lem}
use ctest.DirectRunner.{fill_output, read_output}

drop-replicate : (n m : ℕ) → n ≤ m → drop {A = ℕ} n (replicate (m + 1) 0) ≡ 0 ∷ replicate (m - n) 0
drop-replicate zero m p =
    let z : m + 1 ≡ suc m = omega arith in let y : m - 0 ≡ m = omega arith in rw (z, y) refl
drop-replicate (suc n) zero p = ground arith
drop-replicate (suc n) (suc m) p =
    let z : suc m + 1 ≡ suc (m + 1) = omega arith in
    let y : suc m - suc n ≡ m - n = omega arith in rw (z, y) (drop-replicate n m (omega (arith, p)))

-- What is read back of the file, if it can be sought and the output created: the bytes that read
-- gives, followed by a 0 that is inside the storage.
pub read_output_lem :
    (answer : Answer) (text : List ℕ)
    → let bytes = taken answer (length text) text in
      (o : Output) × (rest : List ℕ) × ((read_output
            (record { seeks = true; created = true; answer = answer })
            text
          ≡ some o)
        × (o.data_bytes ≡ bytes ++ 0 ∷ rest)
        × (o.length ≡ length bytes))
unfolding read_output fill_output ctest_output_create store
read_output_lem answer text =
    let bytes : List ℕ = taken answer (length text) text in
    let n : 0 + length bytes ≤ length text =
      omega (arith, length-taken-le answer (length text) text) in
    let o : Output = record {
      length = length bytes;
      data_bytes = store (replicate (length text + 1) 0) 0 bytes;
    } in
    (
      o,
      replicate (length text - (0 + length bytes)) 0,
      (
        refl,
        ap (λ (l : List ℕ). bytes ++ l) (drop-replicate (0 + length bytes) (length text) n),
        refl,
      ),
    )

-- The console shows every line of the text that a failed test case has written in the process of
-- the runner, if the text is read back whole. It has no 0, and is not empty.
pub report_output-read_output :
    (answer : Answer) (text : List ℕ)
    → IsText text
    → taken answer (length text) text ≡ text
    → 1 ≤ length text
    → report_output (read_output (record { seeks = true; created = true; answer = answer }) text)
      ≡ whole_text text
report_output-read_output answer text t e p =
    let (o, rest, (read_back, bytes, len)) = read_output_lem answer text in
    ap report_output read_back
    ∙ report_output_lem o text rest (bytes ∙ ap (λ (l : List ℕ). l ++ 0 ∷ rest) e) t
        (omega (arith, len, ap length e, p))
