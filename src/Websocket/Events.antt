-- ===== src/Websocket/Events.antt =====
-- The events of app/websocket/events.py and the data that they carry.
use metroflow_ai_backend.Common.{Option, none, some, List}

pub data Event : Type 0 where
  crowd_update schedule_update delay_alert station_alert train_position : Event
  notification notification_read notification_all_read : Event
  notification_deleted notification_all_deleted ping : Event

unfoldable pub Event-discrete : Discrete Event
Event-discrete = hlevel

-- Why a connection ended.
pub data Reason : Type 0 where
  rejected_at_capacity send_failed stale_reaped client_close error unknown : Reason

unfoldable pub Reason-discrete : Discrete Reason
Reason-discrete = hlevel

pub data MergeKey : Type 0 where
  station_id train_id : MergeKey

-- `_COALESCE_MERGE_KEY`
abbrev pub coalesce_merge_key : Event → Option MergeKey
coalesce_merge_key crowd_update = some station_id
coalesce_merge_key train_position = some train_id
coalesce_merge_key _ = none

-- An item of a list of updates: a dictionary, with the two keys that are looked up and the rest, or
-- another value.
pub data Item (Value : Type 0) : Type 0 where
  dict : Option Value → Option Value → Value → Item Value
  scalar : Value → Item Value

-- `item[merge_key]` of a dictionary that has it.
abbrev pub merge_value : {Value : Type 0} → MergeKey → Item Value → Option Value
merge_value station_id (dict station train rest) = station
merge_value train_id (dict station train rest) = train
merge_value _ (scalar value) = none

-- The data of an event: the updates, if `data.get("updates")` is a list, the timestamp, and what
-- else it holds.
pub record Data (Value : Type 0) : Type 0 where
  pub updates : Option (List (Item Value))
  pub timestamp : Option Value
  pub rest : Option Value

-- The types that the model leaves open: sockets, user ids, event and instance ids, JSON values.
pub record Domain : Type 1 where
  pub Socket : Type 0
  pub User : Type 0
  pub Uuid : Type 0
  pub Value : Type 0
  pub null : Value
  pub socket_dec : Discrete Socket
  pub user_dec : Discrete User
  pub id_dec : Discrete Uuid
  pub value_dec : Discrete Value
