-- ===== src/Line/History.antt =====
-- Platforms and LINE groups through the calls of apps/api/app/services/platform_service.py and
-- apps/api/app/services/line_service.py in any order.
use aidflow.Prelude.{ℕ, String, ◌≡◌, Bool, true, Option, some, List, [], arith}
use aidflow.Models.{Time}
use aidflow.Models.Table.{get}
use aidflow.Geo.{Float}
use aidflow.Clusters.Policy.{ClusterPolicy}
use aidflow.Modules.{Registry}
use aidflow.Platforms.Rows.{PlatformRow, Site, get_platform}
use aidflow.Platforms.Slugs.{SlugTools}
use aidflow.Platforms.Create.{NewPlatform, create_platform}
use aidflow.Platforms.Manage.{ConfigUpdate, update_configuration, set_status}
use aidflow.Platforms.Prune.{DemoSettings, retired, prune_generated}
use aidflow.Line.{target, bind_group, unbind, bind_code}
use aidflow.Line.Links.{IsLinked}
use aidflow.Line.Keeps.{bind_group-IsLinked, unbind-IsLinked, bind_code-IsLinked}
use aidflow.Line.Webhook.{LineEvent, handle_webhook}
use aidflow.Line.Webhook.Safe.{handle_webhook-IsLinked}
use aidflow.Line.Untouched.{
  is_silent, set_status-IsLinked, update_configuration-IsLinked, delete_all-IsLinked,
  create_platform-IsLinked,
}

-- One call of the services, with what it leaves, also where it raises.
pub data Call : Site → Site → Type 0 where
  created :
      (f : Float) (base : ClusterPolicy) (tools : SlugTools) (reg : Registry) (now : Time)
      (new : NewPlatform) (s : Site)
      → Call s (create_platform f base tools reg now new s).0
  status_set : (now : Time) (id : ℕ) (t : String) (s : Site) → Call s (set_status now id t s).0
  configured_as :
      (base : ClusterPolicy) (id : ℕ) (u : ConfigUpdate) (s : Site)
      → Call s (update_configuration base id u s)
  pruned :
      (settings : DemoSettings) (keep : Option (Option ℕ)) (protect : List ℕ) (s : Site)
      → Call s (prune_generated settings keep protect s).0
  bound_by :
      (iso : Time → String) (now : Time) (id : ℕ) (group_id : String) (actor : Option String)
      (p : PlatformRow) {s s' : Site}
      → get_platform s id ≡ some p
      → bind_group iso now id group_id actor s ≡ some s'
      → Call s s'
  unbound : (id : ℕ) (actor : Option String) (s : Site) → Call s (unbind id actor s)
  code_read :
      (fresh : String) (id : ℕ) (regenerate : Bool) (s : Site)
      → Call s (bind_code fresh id regenerate s).0
  webhook :
      (iso : Time → String) (upper : String → String) (now : Time) (token_set : Bool)
      (evs : List LineEvent) (s : Site)
      → Call s (handle_webhook iso upper now token_set evs s).site

-- The sites that calls make of one without platforms and groups.
pub data History : Site → Type 0 where
  empty : (s : Site) → s.platforms ≡ [] → s.groups ≡ [] → History s
  next : {s s' : Site} → History s → Call s s' → History s'

-- A configuration that the call writes, if any, leaves the key `line_group_id` out.
abbrev pub IsSilentCall : {s s' : Site} → Call s s' → Type 0
IsSilentCall (created f base tools reg now new s) = is_silent new.configuration ≡ true
IsSilentCall (status_set now id t s) = Unit {0}
IsSilentCall (configured_as base id u s) = is_silent u.configuration ≡ true
IsSilentCall (pruned settings keep protect s) = Unit {0}
IsSilentCall (bound_by iso now id group_id actor p g e) = Unit {0}
IsSilentCall (unbound id actor s) = Unit {0}
IsSilentCall (code_read fresh id regenerate s) = Unit {0}
IsSilentCall (webhook iso upper now token_set evs s) = Unit {0}

-- No call of the history writes that key.
abbrev pub IsSilent : {s : Site} → History s → Type 0
IsSilent (empty s e h) = Unit {0}
IsSilent (next l c) = IsSilent l × IsSilentCall c

call-IsLinked : {s s' : Site} (c : Call s s') → IsSilentCall c → IsLinked s → IsLinked s'
unfolding prune_generated
call-IsLinked (created f base tools reg now new s) h l =
    create_platform-IsLinked f base tools reg now new s h l
call-IsLinked (status_set now id t s) h l = set_status-IsLinked now id t s l
call-IsLinked (configured_as base id u s) h l = update_configuration-IsLinked base id u s h l
call-IsLinked (pruned settings keep protect s) h l =
    delete_all-IsLinked (retired settings keep protect s) s l
call-IsLinked (bound_by iso now id group_id actor p {s} k e) h l =
    bind_group-IsLinked iso now id group_id actor s l k e
call-IsLinked (unbound id actor s) h l = unbind-IsLinked id actor s l
call-IsLinked (code_read fresh id regenerate s) h l = bind_code-IsLinked fresh id regenerate s l
call-IsLinked (webhook iso upper now token_set evs s) h l =
    handle_webhook-IsLinked iso upper now token_set evs s l

-- The two records of a binding agree through calls of the services, from the console and from LINE, in
-- any order, as long as no configuration that a caller gives to `create_platform` or to
-- `update_configuration` has the key `line_group_id`: the row of a group names a platform exactly when
-- the configuration of that platform names the group, so that a group notifies one platform and a
-- platform one group. The services do not check that condition; what such a configuration would set is
-- not covered.
pub History-IsLinked : {s : Site} (h : History s) → IsSilent h → IsLinked s
unfolding target get_platform get
History-IsLinked (empty s e h) q = record {
  names = λ j g t. absurd (ground (arith, e, t));
  held = λ j g o. absurd (ground (arith, h, o));
  real = λ j g t. absurd (ground (arith, e, t));
}
History-IsLinked (next l c) (q, r) = call-IsLinked c r (History-IsLinked l q)
