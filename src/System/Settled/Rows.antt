-- ===== src/System/Settled/Rows.antt =====
-- The status of a crane beside the number of its gone reports.
use Prim.Native.Nat.{max}
use crane_tracker.Base.{
  ℕ, ◌≡◌, refl, Bool, true, false, List, [], ◌∷◌, ◌==◌, ◌||◌, ◌&&◌, arith, any, all, count, update,
  delete, leb, not,
}
use crane_tracker.Models.{Crane, CraneStatus, GoneReport}
use crane_tracker.Crane.{set_gone, is_gone_by}

abbrev pub reports_on : ℕ → List GoneReport → ℕ
reports_on id reports = count (λ r. r.crane_id == id) reports

-- Gone exactly when the reports reach the threshold, of which one is the least that counts.
abbrev pub is_settled : ℕ → List GoneReport → Crane → Bool
is_settled threshold reports c = elim c.status [
  | CraneStatus.gone ↦ leb (max 1 threshold) (reports_on c.id reports)
  | CraneStatus.active ↦ not (leb (max 1 threshold) (reports_on c.id reports))
]

-- The crane `id` may have the reports, and not yet the status.
abbrev pub is_settled_but : ℕ → ℕ → List GoneReport → Crane → Bool
is_settled_but threshold id reports c =
    is_settled threshold reports c || c.id == id && leb (max 1 threshold) (reports_on id reports)

pub no_reports :
    (id : ℕ) (cranes : List Crane) (reports : List GoneReport)
    → any (λ c. c.id == id) cranes ≡ false
    → all (λ r. any (λ c. c.id == r.crane_id) cranes) reports ≡ true
    → reports_on id reports ≡ 0
no_reports id cranes [] absent h = refl
no_reports id cranes (r ∷ reports) absent h = ground (arith, no_reports id cranes reports absent)

-- The reports of another crane are not those that a DELETE takes.
reports_on-delete :
    (id k : ℕ) (reports : List GoneReport)
    → (k == id) ≡ false
    → reports_on k (delete (λ r. r.crane_id == id) reports) ≡ reports_on k reports
reports_on-delete id k [] apart = refl
reports_on-delete id k (r ∷ reports) apart = ground (arith, reports_on-delete id k reports apart)

module _ (threshold : ℕ) where
  pub settled-delete :
      (id : ℕ) (reports : List GoneReport) (cranes : List Crane)
      → all (is_settled threshold reports) cranes ≡ true
      → all
          (is_settled threshold (delete (λ r. r.crane_id == id) reports))
          (delete (λ c. c.id == id) cranes)
        ≡ true
  settled-delete id reports [] h = refl
  settled-delete id reports (c ∷ cranes) h =
      ground (arith, reports_on-delete id c.id reports, settled-delete id reports cranes)

  pub settled-report :
      (r : GoneReport) (reports : List GoneReport) (cranes : List Crane)
      → all (is_settled threshold reports) cranes ≡ true
      → all (is_settled_but threshold r.crane_id (r ∷ reports)) cranes ≡ true
  settled-report r reports [] h = refl
  settled-report r reports (c ∷ cranes) h = ground (arith, settled-report r reports cranes)

  -- too few reports for a change
  pub settled-kept :
      (id : ℕ) (reports : List GoneReport) (cranes : List Crane)
      → is_gone_by threshold (reports_on id reports) ≡ false
      → all (is_settled_but threshold id reports) cranes ≡ true
      → all (is_settled threshold reports) cranes ≡ true
  settled-kept id reports [] few h = refl
  settled-kept id reports (c ∷ cranes) few h = ground (arith, settled-kept id reports cranes few)

  -- enough reports, and the status set
  pub settled-mark :
      (id time : ℕ) (reports : List GoneReport) (cranes : List Crane)
      → is_gone_by threshold (reports_on id reports) ≡ true
      → all (is_settled_but threshold id reports) cranes ≡ true
      → all (is_settled threshold reports) (update (λ c. c.id == id) (set_gone time) cranes) ≡ true
  settled-mark id time reports [] enough h = refl
  settled-mark id time reports (c ∷ cranes) enough h =
      ground (arith, settled-mark id time reports cranes enough)
