-- ===== src/Realtime/Events.antt =====
-- packages/realtime/src/events.ts and publisher.ts.
use Prim.Native.Char.{Char}
use vkit_orbit.Base.{
  String, Bool, false, not, ◌&&◌, ◌||◌, Option, none, some, List, [], ◌∷◌, ◌++◌, ◌==◌,
  if◌then◌else◌,
}
use vkit_orbit.Base.Texts.{is_between, is_char, is_digit, after}
use vkit_orbit.Json.{Json, str, obj, Fields, end, field}
use vkit_orbit.Json.Print.{◌<>◌}
use vkit_orbit.Collection.Cursor.{lookup}
use vkit_orbit.Realtime.Ticket.{Platform, is_wire_datetime}

pub record RealtimeEvent : Type 0 where
  pub event_id : String
  pub occurred_at : String
  pub document_id : String
  pub run_id : String
  pub workspace_id : String

-- `[0-9a-f]`, in both cases.
abbrev pub is_hex : Char → Bool
is_hex c = is_digit c || is_between b'a' b'f' c || is_between b'A' b'F' c

abbrev four : List (Char → Bool)
four = is_hex ∷ is_hex ∷ is_hex ∷ is_hex ∷ []

abbrev dash : List (Char → Bool)
dash = is_char b'-' ∷ []

-- `^[0-9a-f]{8}-[0-9a-f]{4}-[0-9a-f]{4}-[0-9a-f]{4}-[0-9a-f]{12}$`
abbrev pub is_uuid : String → Bool
is_uuid s =
    elim (after
      (four ++ four ++ dash ++ four ++ dash ++ four ++ dash ++ four ++ dash ++ four ++ four ++ four)
      s) [ none ↦ false | some rest ↦ rest == "" ]

abbrev pub is_event : Platform → RealtimeEvent → Bool
is_event platform e =
    is_uuid e.event_id
    && is_wire_datetime platform e.occurred_at
    && not (e.document_id == "")
    && not (e.run_id == "")
    && not (e.workspace_id == "")

abbrev pub event_type : String
event_type = "document.processing.updated"

-- The texts under the six keys; other keys are dropped.
abbrev pub read_event :
    Option Json
    → Option Json
    → Option Json
    → Option Json
    → Option Json
    → Option Json
    → Option RealtimeEvent
read_event (some (str kind)) (some (str id)) (some (str at)) (some (str document_id))
      (some (str run_id)) (some (str workspace_id)) =
    if kind == event_type
    then some (record {
      event_id = id;
      occurred_at = at;
      document_id = document_id;
      run_id = run_id;
      workspace_id = workspace_id;
    })
    else none
read_event _ _ _ _ _ _ = none

abbrev pub fields_event : Fields → Option RealtimeEvent
fields_event fs =
    read_event (lookup "type" fs) (lookup "eventId" fs) (lookup "occurredAt" fs)
      (lookup "documentId" fs) (lookup "runId" fs) (lookup "workspaceId" fs)

abbrev pub checked_event : Platform → Option RealtimeEvent → Option RealtimeEvent
checked_event platform none = none
checked_event platform (some e) = if is_event platform e then some e else none

-- `realtimeEventSchema.parse`, with none where it throws.
unfoldable pub parse_event : Platform → Json → Option RealtimeEvent
parse_event platform (obj fs) = checked_event platform (fields_event fs)
parse_event platform _ = none

unfoldable pub rooms_for_event : RealtimeEvent → List String
rooms_for_event e =
    ("document:" <> e.document_id) ∷ ("run:" <> e.run_id) ∷ ("workspace:" <> e.workspace_id) ∷ []

-- An event as it is published.
abbrev pub event_json : RealtimeEvent → Json
event_json e = obj (
    field "type" (str event_type) (
      field "eventId" (str e.event_id) (
        field "occurredAt" (str e.occurred_at) (
          field "documentId" (str e.document_id)
            (field "runId" (str e.run_id) (field "workspaceId" (str e.workspace_id) end))))))
