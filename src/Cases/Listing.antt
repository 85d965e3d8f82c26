-- ===== src/Cases/Listing.antt =====
-- The queue of cases: `list_cases` of apps/api/app/services/case_service.py. Rows that compare equal
-- keep the order of the table. The column `updated_at`, which no other operation reads, comes as a
-- function of the case's identifier.
use aidflow.Prelude.{
  ℕ, String, Bool, true, false, not, ◌&&◌, ◌||◌, Option, none, some, List, [], ◌∷◌, member, select,
  take, drop, length, str_eq, is_text, text_or, ltb, leb, ◌==◌, sort_with, if◌then◌else◌,
}
use aidflow.Models.{Db, IncidentCase, Time}
use aidflow.CaseStates.{
  CaseStatus, value, elem, closed, dismissed, pending_statuses, emic_statuses, community_statuses,
  queued_statuses, done_statuses,
}
use aidflow.Categories.{severity_rank}

-- The keyword arguments of `list_cases`.
pub record Listing : Type 0 where
  pub statuses : List String
  pub phase : Option String
  pub track : Option String
  pub category : Option String
  pub town : Option String
  pub severity : Option String
  pub since : Option Time
  pub public_only : Bool
  pub sort : String
  pub limit : ℕ
  pub offset : ℕ

-- `_PHASES.get(phase)`, with the statuses of a phase
abbrev pub statuses_of_phase : String → Option (List CaseStatus)
statuses_of_phase phase =
    if str_eq phase "pending"
    then some pending_statuses
    else if str_eq phase "active"
    then some emic_statuses
    else if str_eq phase "community"
    then some community_statuses
    else if str_eq phase "queued"
    then some queued_statuses
    else if str_eq phase "done"
    then some done_statuses
    else none

abbrev pub is_finished : CaseStatus → Bool
is_finished s = elem s (closed ∷ dismissed ∷ [])

in_phase : Option String → CaseStatus → Bool
in_phase none s = true
in_phase (some phase) s = elim (statuses_of_phase phase) [
  | some ss ↦ elem s ss
  | none ↦ if str_eq phase "open" then not (is_finished s) else true
]

-- The filter of an argument that is left out where it is empty; a column may hold `None`.
abbrev pub is_text_of : Option String → Option String → Bool
is_text_of arg column =
    if is_text arg then elim column [ none ↦ false | some t ↦ str_eq t (text_or arg "") ] else true

abbrev pub is_since : Option Time → Time → Bool
is_since none t = true
is_since (some s) t = leb s t

abbrev in_statuses : List String → CaseStatus → Bool
in_statuses [] s = true
in_statuses (t ∷ ts) s = member (value s) (t ∷ ts)

-- All filters together.
unfoldable pub is_listed : ℕ → Listing → IncidentCase → Bool
unfolding in_phase
is_listed platform_id l c =
    c.platform_id == platform_id
    && in_statuses l.statuses c.status
    && in_phase l.phase c.status
    && is_text_of l.track c.track
    && (if l.public_only then not (elem c.status (dismissed ∷ [])) else true)
    && is_text_of l.category (some c.category)
    && is_text_of l.town c.town
    && is_text_of l.severity (some c.severity)
    && is_since l.since c.created_at

abbrev newer : IncidentCase → IncidentCase → Bool
newer a b = leb b.created_at a.created_at

-- A key first, and among equals the newer first.
abbrev by_key_desc : (IncidentCase → ℕ) → IncidentCase → IncidentCase → Bool
by_key_desc key a b = ltb (key b) (key a) || ((key a == key b) && newer a b)

unfoldable pub comes_before : (ℕ → Time) → String → IncidentCase → IncidentCase → Bool
comes_before updated_at sort a b =
    if str_eq sort "severity_desc"
    then by_key_desc (λ c. severity_rank c.severity) a b
    else if str_eq sort "reports_desc"
    then by_key_desc (λ c. c.unique_reporter_count) a b
    else if str_eq sort "created_asc"
    then leb a.created_at b.created_at
    else if str_eq sort "updated_desc"
    then leb (updated_at b.id) (updated_at a.id)
    else newer a b

unfoldable pub list_cases : (ℕ → Time) → Db → ℕ → Listing → List IncidentCase × ℕ
unfolding is_listed comes_before sort_with
list_cases updated_at db platform_id l =
    let rows = select (is_listed platform_id l) db.cases in
    (take l.limit (drop l.offset (sort_with (comes_before updated_at l.sort) rows)), length rows)
