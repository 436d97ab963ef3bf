-- ===== src/Tests/Matrix.antt =====
-- The theorems on matrices of doubles, applied at concrete inputs.
use gbin.Prelude.{some, ◌≡◌, ◌^◌, refl, arith, [], ◌∷◌}
use gbin.Value.Matrix.{overrun, new_f64_matrix_rowmajor}
use gbin.Value.Matrix.Whole.{
  Transposes, new_f64_matrix_rowmajor-Transposes, new_f64_matrix_rowmajor_overruns,
}

new_f64_matrix_rowmajor-Transposes_example :
    Transposes
      (1 ∷ 2 ∷ 3 ∷ 4 ∷ 5 ∷ 6 ∷ [])
      2
      3
      (new_f64_matrix_rowmajor (some (1 ∷ 2 ∷ 3 ∷ 4 ∷ 5 ∷ 6 ∷ [])) 2 3)
new_f64_matrix_rowmajor-Transposes_example =
    new_f64_matrix_rowmajor-Transposes (1 ∷ 2 ∷ 3 ∷ 4 ∷ 5 ∷ 6 ∷ []) 2 3 (omega arith) (omega arith)
      (omega arith)

new_f64_matrix_rowmajor_overruns_example :
    new_f64_matrix_rowmajor (some (7 ∷ [])) (2 ^ 32) (2 ^ 29) ≡ overrun
new_f64_matrix_rowmajor_overruns_example =
    new_f64_matrix_rowmajor_overruns (7 ∷ []) (2 ^ 32) (2 ^ 29) (omega arith) (omega arith) refl
