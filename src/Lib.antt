-- ===== src/Lib.antt =====
-- AidFlow: disaster reports of citizens become cases of a county, which officers review. This
-- library models the core of the API (apps/api/app) and shows that it works.
--
-- The parts, and how they interact:
--   * Prelude: Boolean tests, lists and texts that the others share.
--   * CaseStates (domain/case_states.py): the statuses of a case, the declared transitions, and
--     the tables of labels, phases, tracks and progress paths.
--   * Categories (domain/categories.py): categories, similarity, severities and triage.
--   * Permissions (domain/permissions.py): roles and what they may do.
--   * Models (db/models.py, services/outbox_service.py): the rows as records, the database as the
--     lists of its rows, and the outbox.
--   * Geo (utils/geo.py, utils/town_centroids.py): distance and bounding box, over an interface of
--     doubles; places by name (`Places`, `Towns`); and the simplification of lines (`Lines`).
--   * Clusters (services/cluster_service.py): which cluster a report joins (`Matching`), how many
--     people it has (`Counting`), and `process_report` (`Process`), which makes a case by way of
--     Cases/Creation where enough people agree.
--   * Cases (services/case_service.py): numbering, creation, and every change of state. A call is
--     an `Action`: it takes the live case with the database, and gives a result or an exception
--     with what it wrote. Each operation of the source has the function of its name: `transition`,
--     `review`, `report_to_emic`, `update_emic`, `community_submit`, `community_confirm`,
--     `add_update`, `create_case_from_cluster`, `attach_report_to_case`, `promote_cluster`;
--     `Queries` and `Listing` read.
--   * Accounts (services/auth_service.py): login and lockout, tokens, and the accounts.
--   * Access (core/security.py): who a request comes from and what it may do. It asks Accounts for
--     the account of a token and Permissions for what its role holds.
--   * Reports (services/report_service.py): the intake of a report, which hands it to Clusters, and
--     its rejection.
--   * RateLimit (utils/ratelimit.py): the sliding window of public write endpoints.
--   * Modules (modules/*.py, domain/hazards.py): the registry of capabilities, its catalogue, the
--     hazards, and the profile that a disaster is given (`Scenarios`).
--   * Platforms (services/platform_service.py, utils/slug.py): the selection of modules and
--     layers (`Selection`, with proofs on the loop that closes it over dependencies in `Closure`), the
--     creation of a platform (`Create`) and its slug (`Slugs`), its changes (`Manage`), and the retirement of generated ones (`Prune`). It asks
--     Modules for the profile and Clusters for the policy. A database with platforms is a `Site`.
--   * Line (services/line_service.py): the binding of a platform to a LINE group, from the console and
--     by `Webhook`. The binding stands in two records, which `Links` relates; `History` is any
--     sequence of calls of Platforms and Line.
--   * Notices (services/notification_service.py): what is sent to whom, and the log. A sending is a
--     value, a `Delivery`: the rows of the log that are written at once, and the jobs that are queued.
--     `Delivery` has the deliveries, `Messages` the texts for reporters, `Mail` their mails, `Pushes`
--     the pushes to the staff and `after_commit` of services/case_service.py.
--   * Views (services/presenters.py): the progress of a case on the portal.
--   * Privacy (services/privacy_service.py): what is masked, rounded and redacted for the public.
--   * Portal (routers/public.py, services/situation_service.py, services/presenters.py): the public
--     reading pages. `Features` is the map with its three kinds of features, `Pages` the other pages.
--     They read the listings of Cases and Reports and show each row by way of Privacy. `Alike` says
--     what the public cannot tell apart, for `Blind`; `Live` is about the map.
--   * Situation (services/situation_service.py): the counts (`Counting`), the trend of
--     a day (`Buckets`), the public summary (`Summary`) and the overviews (`Overviews`).
--   * Console (routers/cases.py): the routes for officers. A request passes Access, calls Cases, and is
--     answered by an `Outcome`: the answer, the site after it and what is sent. `Records` has the views
--     of cases and reports with personal data, and the audit of these views.
--   * Official (services/official_data_service.py): the layers of open data, gathered from connectors
--     (`Sources`, `Fetching`), the cache in front of them (`Cached`), and the status of each layer
--     (`Statuses`).
--
-- Conventions and bounds. A moment is a number of microseconds, a UUID a number that the database
-- has not given out before, a coordinate a bit pattern whose arithmetic is the record `Geo.Float`.
-- Fuel: `insert_case` makes the five attempts of the source; a number has no more decimal digits than
-- its value; each round of the loop of `resolve_selection` but the last adds a module, so that one
-- round more than the registry has modules is enough; each call of `rdp` and each round of thinning in
-- `simplify_line` has fewer points than the one before it.
--
-- Parameters, which stand outside the program: the arithmetic of doubles and its order on numbers
-- (`Float`, `IsOrdered`), the reply of the EMIC endpoint (`Emic`), `str.upper` and `str.lower`, the
-- regular expressions of privacy_service and the rounding of doubles (`Patterns`), SHA-256 (`Hashing`),
-- `secrets.token_urlsafe` (`Secrets`), the password hasher and the signer of tokens (`Crypto`), the
-- tables of Unicode (`Unicode`), the regular expressions of `slugify` and a random suffix
-- (`SlugTools`), the format of a date, the transports of LINE and of mail with what they answer, what a
-- connector returns or raises (`Upstream`), the clocks, and the column `updated_at`, which the database
-- keeps.
--
-- Not modelled: the files of photos (services/media_service.py), the connectors to open data, the
-- routes of platforms and accounts, the public routes that write, the plain views of the presenters that
-- no route above shows, the medians of the console's overview, and the registry of rate limiters. The
-- lock of a cache entry and worker threads are not modelled: calls run one after the other, and each
-- thread sends a job, in any order. Concurrency is modelled only where the source handles it, in the
-- retries of `_insert_case`; each call runs alone in its transaction.

pub mod Prelude
pub mod Access
pub mod Accounts
pub mod CaseStates
pub mod Cases
pub mod Categories
pub mod Clusters
pub mod Console
pub mod Geo
pub mod Line
pub mod Models
pub mod Modules
pub mod Notices
pub mod Official
pub mod Permissions
pub mod Platforms
pub mod Portal
pub mod Privacy
pub mod RateLimit
pub mod Reports
pub mod Situation
pub mod Views
