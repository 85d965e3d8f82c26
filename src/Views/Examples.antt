-- ===== src/Views/Examples.antt =====
-- The progress of the case of Cases.Examples, which the community has closed.
use aidflow.Cases.Examples.{ended, ended-Life}
use aidflow.Views.{progress}
use aidflow.Views.Progress.{Shows, progress_lem}

progress_lem_example : Shows ended.case.status (progress ended.case ended.db.events)
progress_lem_example = progress_lem {s = ended} ended.db.events ended-Life
