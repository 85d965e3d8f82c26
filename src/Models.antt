-- ===== src/Models.antt =====
-- The tables of apps/api/app/db/models.py that the report pipeline reads and writes, as records,
-- and the database as the lists of their rows. Texts with a closed set of values (the status of a
-- report, of a cluster and of a case) are enums; a moment is its number of microseconds; a UUID is
-- a number that the database has not given out before; a coordinate is a `Double` of Geo.
mod Rows
pub mod Table
pub use Rows.*
use aidflow.Prelude.{ℕ, ◌+◌, String, Bool, Option, List, [], ◌∷◌, ◌++◌}

-- What the tables hold. `next_id` is the next UUID that `uuid4` will return.
pub record Db : Type 0 where
  pub reports : List Report
  pub clusters : List ReportCluster
  pub cases : List IncidentCase
  pub events : List CaseEvent
  pub outbox : List EventOutbox
  pub photos : List ReportPhoto
  pub next_id : ℕ

abbrev pub empty_db : Db
empty_db = record {
  reports = [];
  clusters = [];
  cases = [];
  events = [];
  outbox = [];
  photos = [];
  next_id = 0;
}

-- `enqueue_event` of apps/api/app/services/outbox_service.py: one row at the end of the outbox.
unfoldable pub enqueue_event : String → Option ℕ → Payload → Db → Db
enqueue_event event_type aggregate_id payload db = record db {
  outbox =
      db.outbox
      ++ record {
        id = db.next_id;
        event_type = event_type;
        aggregate_id = aggregate_id;
        payload = payload;
        processed = Bool.false;
      }
        ∷ [];
  next_id = db.next_id + 1;
}
