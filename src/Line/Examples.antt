-- ===== src/Line/Examples.antt =====
-- A platform that is created, bound to a group from the console, and left by it.
use aidflow.Prelude.{String, ◌≡◌, refl, true, none, some, [], ◌∷◌}
use aidflow.Models.{Time}
use aidflow.Models.Table.{get}
use aidflow.Clusters.Examples.{flat}
use aidflow.Clusters.Policy.{default_policy}
use aidflow.Platforms.Rows.{PlatformRow, Site, get_platform}
use aidflow.Platforms.Create.{create_platform}
use aidflow.Platforms.Examples.{registry, slug_tools, new, site}
use aidflow.Line.{bind, bind_group, is_group_id}
use aidflow.Line.Links.{IsLinked}
use aidflow.Line.Webhook.{LineEvent, leave, handle_webhook, code_in}
use aidflow.Line.History.{
  IsSilent, created, bound_by, webhook, History, empty, next, History-IsLinked,
}

abbrev pub iso : Time → String
iso t = "2026-01-01T00:00:00+00:00"

abbrev pub group : String
group = "C0123456789abcdef0123456789abcdef"

group-is_group_id : is_group_id group ≡ true
unfolding is_group_id
group-is_group_id = refl

-- A code between spaces, and one with a letter too many.
code_read : code_in " 綁定 abc123\n" ≡ some "abc123"
unfolding code_in
code_read = refl

code_too_long : code_in "綁定 abc1234" ≡ none
unfolding code_in
code_too_long = refl

abbrev pub created_site : Site
created_site = (create_platform flat default_policy slug_tools registry 5 new site).0

abbrev pub bound_site : Site
bound_site = bind iso 7 0 group (some "admin") created_site

abbrev left_event : LineEvent
left_event = record { group_id = some group; room_id = none; type = leave; reply_token = none }

pub bound-History :
    (p : PlatformRow)
    → get_platform created_site 0 ≡ some p
    → bind_group iso 7 0 group (some "admin") created_site ≡ some bound_site
    → History bound_site
bound-History p h k =
    next (next (empty site refl refl) (created flat default_policy slug_tools registry 5 new site))
      (bound_by iso 7 0 group (some "admin") p h k)

pub is_bound : bind_group iso 7 0 group (some "admin") created_site ≡ some bound_site
unfolding bind_group
is_bound = refl

pub has_platform : (p : PlatformRow) × (get_platform created_site 0 ≡ some p)
unfolding create_platform get_platform get
has_platform = (_, refl)

pub bound-IsSilent :
    (p : PlatformRow) (h : get_platform created_site 0 ≡ some p)
    (k : bind_group iso 7 0 group (some "admin") created_site ≡ some bound_site)
    → IsSilent (bound-History p h k)
unfolding bound-History
bound-IsSilent p h k = ((tt, refl), tt)

History-IsLinked_example :
    IsLinked (handle_webhook iso (λ t. t) 9 true (left_event ∷ []) bound_site).site
History-IsLinked_example =
    History-IsLinked
      (next (bound-History has_platform.0 has_platform.1 is_bound)
        (webhook iso (λ t. t) 9 true (left_event ∷ []) bound_site))
      (bound-IsSilent has_platform.0 has_platform.1 is_bound, tt)
