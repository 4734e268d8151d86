-- ===== src/Alerts.antt =====
-- app/services/alert_service.py: the alerts, the history of what was done to them, and what the
-- requests on them read and write.
pub mod Actions
pub mod History
pub mod Announced
pub mod Email
pub mod Outcomes
pub mod Dispatch
mod Tests
use metroflow_ai_backend.Common.{
  ℕ, ◌+◌, ◌-◌, Bool, true, false, ◌&&◌, ◌||◌, not, Option, none, some, List, [], ◌∷◌, ◌++◌, ◌⊎◌,
  inl, inr, leb, if◌then◌else◌, is_some, ite, Text, codes, strip, decimal, ℕ_discrete,
}
use metroflow_ai_backend.Common.Dict.{Dict, lookup, insert}
use metroflow_ai_backend.Notifications.Inbox.{Inbox, operator as by_operator}
use metroflow_ai_backend.Notifications.Inbox.Actions.{create_notification}

pub data AlertType : Type 0 where
  overcrowding delay emergency maintenance info : AlertType

abbrev pub alert_type_value : AlertType → Text
alert_type_value overcrowding = codes "overcrowding"
alert_type_value delay = codes "delay"
alert_type_value emergency = codes "emergency"
alert_type_value maintenance = codes "maintenance"
alert_type_value info = codes "info"

-- A row of `alerts`, but for its id.
pub record Alert (User : Type 0) : Type 0 where
  pub station_id : ℕ
  pub alert_type : AlertType
  pub message : Text
  pub created_by : Option User
  pub is_resolved : Bool
  pub resolved_at : Option ℕ
  pub available_until : Option ℕ
  pub notify_email : Bool
  pub notify_sms : Bool
  pub acknowledged_at : Option ℕ
  pub acknowledged_by_id : Option User
  pub assigned_to_id : Option User
  pub created_at : ℕ

-- The texts of an event's action.
pub data IncidentAction : Type 0 where
  created resolved acknowledged assigned unassigned : IncidentAction

unfoldable pub IncidentAction-discrete : Discrete IncidentAction
IncidentAction-discrete = hlevel

pub record AlertIncidentEvent (User : Type 0) : Type 0 where
  pub alert_id : ℕ
  pub actor_id : Option User
  pub action : IncidentAction
  pub note : Option Text
  pub created_at : ℕ

pub data UserRole : Type 0 where
  admin operator passenger : UserRole

pub record UserProfile : Type 0 where
  pub email : Option Text
  pub phone : Option Text
  pub full_name : Text
  pub role : UserRole
  pub is_active : Bool

-- What the code reads of a station.
pub record StationPlace : Type 0 where
  pub station_name : Text
  pub city : Text

-- The data of a STATION_ALERT.
pub record StationAlert : Type 0 where
  pub alert_id : ℕ
  pub station_id : ℕ
  pub station_name : Option Text
  pub alert_type : AlertType
  pub message : Text
  pub available_until : Option ℕ
  pub is_resolved : Bool
  pub created_at : ℕ

-- AlertCreate
pub record AlertCreate : Type 0 where
  pub station_id : ℕ
  pub alert_type : AlertType
  pub message : Text
  pub notify_email : Bool
  pub notify_sms : Bool
  pub available_until : Option ℕ

-- The tables, the next id of an alert, and the calls of `manager.notify`; events and calls in the
-- order in which they came.
pub record AlertDb (User : Type 0) : Type 0 where
  pub alerts : Dict ℕ (Alert User)
  pub next_id : ℕ
  pub events : List (AlertIncidentEvent User)
  pub stations : Dict ℕ StationPlace
  pub users : Dict User UserProfile
  pub inbox : Inbox User
  pub broadcasts : List StationAlert

-- The HTTP errors 404, 409 and 422.
pub data Refusal : Type 0 where
  not_found conflict unprocessable : Refusal

-- `s.title()` of an ASCII text: whether a word starts, and the rest.
abbrev title_from : Bool → Text → Text
title_from start [] = []
title_from start (c ∷ s) =
    let is_lower = leb b'a' c && leb c b'z' in
    let is_upper = leb b'A' c && leb c b'Z' in
    let rest = title_from (not (is_lower || is_upper)) s in
    if is_lower && start
    then (c - 32) ∷ rest
    else if is_upper && not start
    then (c + 32) ∷ rest
    else c ∷ rest

abbrev pub title_case : Text → Text
title_case = title_from true

-- `station.station_name if station else f"Station #{id}"`
abbrev pub station_label : ℕ → Option StationPlace → Text
station_label id none = codes "Station #" ++ decimal id
station_label id (some station) = station.station_name

abbrev pub city_of : Option StationPlace → Option Text
city_of none = none
city_of (some station) = some station.city

abbrev pub name_of : Option StationPlace → Option Text
name_of none = none
name_of (some station) = some station.station_name

-- `(note or "").strip() or None`
abbrev pub note_of : Option Text → Option Text
note_of none = none
note_of (some note) = elim (strip note) [ [] ↦ none | c ∷ s ↦ some (c ∷ s) ]

abbrev pub may_be_assigned : UserProfile → Bool
may_be_assigned user =
    user.is_active && (elim user.role [ admin ↦ true | operator ↦ true | passenger ↦ false ])
