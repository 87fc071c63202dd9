-- ===== src/Config/Reports.antt =====
-- crates/llmtrace/src/config.rs: how validation collects its errors.
use llmtrace.Base.{
  ℕ, ◌≡◌, refl, ◌≤◌, ◌<◌, Bool, true, false, List, [], ◌∷◌, ◌++◌, arith, ltb, ◌==◌, if◌then◌else◌,
  inl, inr, Bool-cases,
}
use llmtrace.Base.Text.{Str, text, decimal}
use llmtrace.Base.Results.{Result, ok, err}

-- `if failed { errors.push(error) }`.
abbrev pub report : Bool → Str → List Str
report true error = error ∷ []
report false error = []

-- `if let Err(error) = result { errors.push(error) }`.
abbrev pub report_err : {A : Type 0} → Result Str A → List Str
report_err (ok a) = []
report_err (err error) = error ∷ []

pub cons_nil : {e : Str} {es : List Str} → e ∷ es ≡ [] → ⊥
cons_nil p = cc

-- What a sequence of checks reports.
unfoldable pub concat : List (List Str) → List Str
concat [] = []
concat (errors ∷ others) = errors ++ concat others

unfoldable pub validate_positive_range : Str → ℕ → ℕ → List Str
validate_positive_range field value max =
    if value == 0
    then (field ++ text " must be greater than 0") ∷ []
    else report (ltb max value) (field ++ text " must be at most " ++ decimal max)

pub validate_positive_range-Empty :
    (field : Str) (value max : ℕ)
    → validate_positive_range field value max ≡ []
    → (0 < value) × (value ≤ max)
unfolding validate_positive_range
validate_positive_range-Empty field value max h = elim (Bool-cases (value == 0)) [
  | inl y ↦ absurd (cons_nil (rw y at h))
  | inr n ↦ elim (Bool-cases (ltb max value)) [
    | inl above ↦ absurd (cons_nil (rw (n, above) at h))
    | inr within ↦ (ground arith, ground arith)
  ]
]

-- Nothing was reported by either part.
pub append-nil : (xs ys : List Str) → xs ++ ys ≡ [] → (xs ≡ []) × (ys ≡ [])
append-nil [] ys h = (refl, h)
append-nil (x ∷ xs) ys h = cc

pub report-nil : (failed : Bool) (error : Str) → report failed error ≡ [] → failed ≡ false
report-nil true error h = cc
report-nil false error h = refl

-- No check of a sequence reported anything.
abbrev pub Clean : List (List Str) → Type 0
Clean [] = Unit
Clean (errors ∷ others) = (errors ≡ []) × Clean others

pub concat-Clean : (checks : List (List Str)) → concat checks ≡ [] → Clean checks
unfolding concat
concat-Clean [] h = tt
concat-Clean (errors ∷ others) h =
    let (first, rest) = append-nil errors (concat others) h in (first, concat-Clean others rest)

pub report_err-ok : {A : Type 0} (r : Result Str A) → report_err r ≡ [] → (a : A) × (r ≡ ok a)
report_err-ok (ok a) h = (a, refl)
report_err-ok (err error) h = cc
