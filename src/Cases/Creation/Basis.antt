-- ===== src/Cases/Creation/Basis.antt =====
-- What a new case takes from the reports of its cluster: their rows, their order, and the label of the
-- place (`_location_label`), of apps/api/app/services/case_service.py.
use aidflow.Prelude.{
  sort_with, no_later, ℕ, suc, String, Bool, false, not, ◌&&◌, Option, none, some, List, [], ◌∷◌,
  select, first, ltb, ◌==◌, str_eq, is_text, text_or, if◌then◌else◌, ◌⧺◌,
}
use aidflow.Models.{Db, Report, Time, is_rejected}
use aidflow.Privacy.{Patterns, mask_address}

-- Functions on texts that stand outside the program: `str.upper`, and the regular expressions of
-- privacy_service.
pub record TextTools : Type 0 where
  pub upper : String → String
  pub patterns : Patterns

abbrev pub is_id : Option ℕ → ℕ → Bool
is_id none k = false
is_id (some j) k = j == k

-- The reports that count for a cluster: `cluster_id == id` and `status != "rejected"`.
abbrev pub counts_for : ℕ → Report → Bool
counts_for k r = is_id r.cluster_id k && not (is_rejected r.status)

abbrev pub reports_for : ℕ → Db → List Report
reports_for k db = select (counts_for k) db.reports

-- `order_by(Report.created_at.asc())`
unfoldable pub by_time : List Report → List Report
unfolding sort_with
by_time rs = sort_with (no_later (λ r. r.created_at)) rs

-- `reports[-1].created_at if reports else now`
abbrev pub last_time : Time → List Report → Time
last_time d [] = d
last_time d (r ∷ rs) = last_time r.created_at rs

abbrev town_of : Option Report → Option String
town_of none = none
town_of (some r) = r.town

-- `town or next((r.town for r in reports if r.town), None)`
abbrev pub or_town : Option String → List Report → Option String
or_town town reports = if is_text town then town else town_of (first (λ r. is_text r.town) reports)

-- `Counter(labels).most_common(1)`: of the labels that occur most often the first one.
occurrences : String → List String → ℕ
occurrences l [] = 0
occurrences l (x ∷ xs) = let n = occurrences l xs in if str_eq l x then suc n else n

most_common : List String → String → List String → String
unfolding occurrences
most_common all best [] = best
most_common all best (l ∷ ls) =
    most_common all (if ltb (occurrences best all) (occurrences l all) then l else best) ls

masked_labels : TextTools → List Report → List String
masked_labels tools [] = []
masked_labels tools (r ∷ rs) =
    let rest = masked_labels tools rs in
    let label = mask_address tools.patterns r.address in
    if is_text label then text_or label "" ∷ rest else rest

label_or_town : Option String → List String → String
unfolding most_common
label_or_town town [] = if is_text town then text_or town "" ⧺ "一帶" else "位置待確認"
label_or_town town (l ∷ ls) = most_common (l ∷ ls) l ls

unfoldable pub location_label : TextTools → List Report → Option String → String
unfolding masked_labels label_or_town
location_label tools reports town = label_or_town town (masked_labels tools reports)
