-- ===== src/Privacy.antt =====
-- What the public may see: apps/api/app/services/privacy_service.py. Regular expressions come from
-- Python's `re`, and hashing from `hashlib`; both are parameters.
use aidflow.Prelude.{
  ℕ, String, Bool, not, ◌&&◌, ◌||◌, Option, none, some, [], ◌∷◌, ◌⧺◌, str_eq, any, is_empty,
  is_text, text_or, strip, take_text, if◌then◌else◌,
}
use aidflow.Models.{Report, ReportStatus, Double, Time}

-- `pattern.sub(replacement, text)` for the patterns of the file, `round(value, 3)` of a double, and
-- the names of the file's patterns by what they match.
pub record Patterns : Type 0 where
  pub drop_floor : String → String
  pub drop_house_no : String → String
  pub drop_lane_alley : String → String
  pub drop_trailing : String → String
  pub redact_email : String → String
  pub redact_tw_id : String → String
  pub redact_phone : String → String
  pub redact_name_hint : String → String
  pub round_coord : Double → Double

-- The salts, and the digits of a SHA-256.
pub record Hashing : Type 0 where
  pub hash_salt : String
  pub ephemeral_salt : String
  pub sha256 : String → String

-- The opaque identity of a reporter: of the contact, or else of the device.
unfoldable pub reporter_key : Hashing → Option String → Option String → Option String
unfolding strip take_text
reporter_key h contact client_key =
    let basis = text_or (some (strip (text_or contact ""))) (strip (text_or client_key "")) in
    let salt = text_or (some (strip h.hash_salt)) h.ephemeral_salt in
    if is_empty basis then none else some (take_text 32 (h.sha256 (salt ⧺ ":" ⧺ basis)))

-- `text.endswith(part)`
abbrev ends_with : String → String → Bool
ends_with String.[] part = is_empty part
ends_with (String.◌∷◌ c s) part = str_eq (String.◌∷◌ c s) part || ends_with s part

abbrev is_vague : String → Bool
is_vague s = any (ends_with s) ("一帶" ∷ "附近" ∷ "路段" ∷ [])

-- `original` is the stripped address, `s` what the patterns leave of it.
abbrev vague : String → String → Option String
vague original s =
    if is_empty s
    then none
    else if not (str_eq s original) && not (is_vague s)
    then some (s ⧺ "一帶")
    else some s

module _ (tools : Patterns) where
  unfoldable pub mask_address : Option String → Option String
  unfolding strip
  mask_address address =
      if not (is_text address)
      then none
      else let original = strip (text_or address "") in
        vague original (
          strip (
            tools.drop_trailing
              (tools.drop_lane_alley (tools.drop_house_no (tools.drop_floor original)))))

  unfoldable pub public_coords : Option Double → Option Double → Option Double × Option Double
  public_coords (some lat) (some lon) = (some (tools.round_coord lat), some (tools.round_coord lon))
  public_coords none lon = (none, none)
  public_coords (some lat) none = (none, none)

  unfoldable pub redact_text : Option String → Option String
  redact_text none = none
  redact_text (some s) =
      if is_empty s
      then some s
      else some
          (tools.redact_name_hint (tools.redact_phone (tools.redact_tw_id (tools.redact_email s))))

-- The dict of `public_report_properties`.
pub record PublicReport : Type 0 where
  pub report_id : ℕ
  pub category : String
  pub severity : String
  pub status : ReportStatus
  pub town : Option String
  pub location_label : Option String
  pub description : Option String
  pub reporter_role : String
  pub photo_count : ℕ
  pub case_id : Option ℕ
  pub cluster_id : Option ℕ
  pub created_at : Time
  pub lat : Option Double
  pub lon : Option Double

unfoldable pub public_report_properties : Patterns → Report → PublicReport
unfolding public_coords mask_address redact_text
public_report_properties tools r =
    let (lat, lon) = public_coords tools r.lat r.lon in
    record {
      report_id = r.id;
      category = r.category;
      severity = r.triage_severity;
      status = r.status;
      town = r.town;
      location_label = mask_address tools r.address;
      description = redact_text tools r.description;
      reporter_role = r.reporter_role;
      photo_count = r.photo_count;
      case_id = r.case_id;
      cluster_id = r.cluster_id;
      created_at = r.created_at;
      lat = lat;
      lon = lon;
    }
