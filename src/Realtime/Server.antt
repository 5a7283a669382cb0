-- ===== src/Realtime/Server.antt =====
-- apps/realtime/src/server.ts and main.ts. Of Socket.IO: a socket is in the room of its own id and in
-- those that it has joined, and an event sent to a room reaches each socket in it. `sent` keeps what
-- the sockets were sent, the last first.
use vkit_orbit.Base.{
  ℕ, String, Bool, true, false, not, ◌&&◌, ◌||◌, Option, none, some, List, [], ◌∷◌, ◌++◌, ◌==◌,
  includes, filter, if◌then◌else◌,
}
use vkit_orbit.Json.{Json, str}
use vkit_orbit.Json.Print.{◌<>◌}
use vkit_orbit.Store.Client.{Result, ok, err, Error}
use vkit_orbit.Realtime.Ticket.{Platform, authenticate_ticket}
use vkit_orbit.Realtime.Events.{RealtimeEvent, parse_event, rooms_for_event}

pub record Dependencies : Type 0 where
  pub platform : Platform
  pub publish_api_key : String
  -- of a ticket, at a time: the subject
  pub authenticate : ℕ → String → Result String
  -- whether the subject may join the workspace
  pub authorize_workspace : String → String → Result Bool
  pub cors_origin : Option String

pub record Socket : Type 0 where
  pub id : String
  pub subject : String
  pub rooms : List String

pub record Sending : Type 0 where
  pub socket : Socket
  pub event : RealtimeEvent

pub record Server : Type 0 where
  pub sockets : List Socket
  pub sent : List Sending

pub record Request : Type 0 where
  pub method : String
  pub url : String
  pub api_key : Option String
  pub body : String

abbrev pub is_text : String → Option String → Bool
is_text s none = false
is_text s (some t) = t == s

-- `io.to(room).emit("realtime-event", event)`
abbrev pub sendings : RealtimeEvent → String → List Socket → List Sending
sendings event room [] = []
sendings event room (s ∷ ss) =
    let rest = sendings event room ss in
    if includes s.rooms room then record { socket = s; event = event } ∷ rest else rest

abbrev pub emit : RealtimeEvent → String → Server → Server
emit event room s = record s { sent = sendings event room s.sockets ++ s.sent }

-- `for (const room of roomsForEvent(event)) …`
abbrev pub emit_all : RealtimeEvent → List String → Server → Server
emit_all event [] s = s
emit_all event (room ∷ rooms) s = emit_all event rooms (emit event room s)

abbrev pub publish_event : Option RealtimeEvent → Server → ℕ × Server
publish_event none s = (400, s)
publish_event (some event) s = (202, emit_all event (rooms_for_event event) s)

-- `realtimeEventSchema.parse(JSON.parse(body))`, and the sending of the event.
abbrev pub publish_parsed : Platform → Option Json → Server → ℕ × Server
publish_parsed platform none s = (400, s)
publish_parsed platform (some v) s = publish_event (parse_event platform v) s

-- The HTTP handler: the status of the response.
unfoldable pub handle_request : Dependencies → Request → Server → ℕ × Server
handle_request deps r s =
    if r.method == "GET" && r.url == "/health"
    then (200, s)
    else if not (r.method == "POST") || not (r.url == "/internal/events")
    then (404, s)
    else if not (is_text deps.publish_api_key r.api_key)
    then (401, s)
    else publish_parsed deps.platform (deps.platform.parse r.body) s

-- `allowRequest`: `!corsOrigin || origin === corsOrigin`
abbrev pub is_allowed : Option String → Option String → Bool
is_allowed none origin = true
is_allowed (some allowed) origin = allowed == "" || is_text allowed origin

abbrev pub admit : String → Result String → Server → Result (Unit {0}) × Server
admit id (err e) s = (err (Error.message "unauthorized"), s)
admit id (ok subject) s = (
  ok tt,
  record s { sockets = record { id = id; subject = subject; rooms = id ∷ [] } ∷ s.sockets },
)

-- A handshake with an origin and a ticket; `id` is the id that Socket.IO gives the socket.
unfoldable pub connect :
    Dependencies → ℕ → String → Option String → String → Server → Result (Unit {0}) × Server
connect deps now id origin ticket s =
    if is_allowed deps.cors_origin origin
    then admit id (deps.authenticate now ticket) s
    else (err (Error.message "forbidden"), s)

abbrev pub workspace_room : String → String
workspace_room workspace_id = "workspace:" <> workspace_id

-- `socket.join(room)`
abbrev pub join_room : String → String → List Socket → List Socket
join_room id room [] = []
join_room id room (s ∷ ss) =
    (if s.id == id then record s { rooms = room ∷ s.rooms } else s) ∷ join_room id room ss

-- `typeof workspaceId === "string" && (await authorizeWorkspace(…))`; a rejection is an error.
abbrev pub may_join : Dependencies → String → Json → Result Bool
may_join deps subject (str workspace_id) = deps.authorize_workspace subject workspace_id
may_join deps subject _ = ok false

abbrev pub room_of : Json → String
room_of (str workspace_id) = workspace_room workspace_id
room_of _ = ""

abbrev pub joined : String → Json → Result Bool → Server → Result Bool × Server
joined id asked (ok true) s =
    (ok true, record s { sockets = join_room id (room_of asked) s.sockets })
joined id asked (ok false) s = (ok false, s)
joined id asked (err e) s = (err e, s)

-- The handler of "join-workspace" on a socket: the `ok` that it answers.
unfoldable pub join_workspace : Dependencies → Socket → Json → Server → Result Bool × Server
join_workspace deps socket asked s = joined socket.id asked (may_join deps socket.subject asked) s

-- A socket that is disconnected leaves its rooms.
abbrev pub disconnect : String → Server → Server
disconnect id s = record s { sockets = filter (λ (x : Socket). not (x.id == id)) s.sockets }

-- The dependencies that main.ts gives the server.
abbrev pub main_dependencies : Platform → String → String → Option String → Dependencies
main_dependencies platform publish_api_key ticket_secret cors_origin = record {
  platform = platform;
  publish_api_key = publish_api_key;
  authenticate = authenticate_ticket platform ticket_secret;
  authorize_workspace = λ subject workspace_id. ok false;
  cors_origin = cors_origin;
}

abbrev pub initial : Server
initial = record { sockets = []; sent = [] }
