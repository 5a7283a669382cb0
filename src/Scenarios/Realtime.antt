-- ===== src/Scenarios/Realtime.antt =====
-- Tickets, sockets and events at concrete values.
use vkit_orbit.Base.{
  String, true, false, ◌&&◌, ◌≡◌, refl, Option, none, some, [], ◌∷◌, Memᴰ, All, ◌==◌, leb,
  if◌then◌else◌,
}
use vkit_orbit.Json.{Json, str}
use vkit_orbit.Json.Print.{stringify, quote}
use vkit_orbit.Store.Client.{ok, err, message}
use vkit_orbit.Collection.Checks.{◌>>=◌, return}
use vkit_orbit.Realtime.Ticket.{
  Platform, Claims, claims_json, is_wire_datetime, sign_realtime_ticket, verify_realtime_ticket,
  authenticate_ticket,
}
use vkit_orbit.Realtime.Signing.{
  verify_realtime_ticket-sign_realtime_ticket, verify_realtime_ticket-IsSigned, IsSigned,
}
use vkit_orbit.Realtime.Events.{RealtimeEvent, event_json, parse_event, rooms_for_event}
use vkit_orbit.Realtime.Server.{
  Dependencies, Socket, Server, Request, handle_request, connect, join_workspace, main_dependencies,
  initial, workspace_room,
}
use vkit_orbit.Realtime.Steps.{Reach, here, next, requested, connected, joining, IsEntitled}
use vkit_orbit.Realtime.Rooms.{Reach-IsEntitled, main-sends_nothing}
use vkit_orbit.Realtime.Sending.{handle_request-sent, to_socket}

abbrev claims : Claims
claims = record { subject_id = "usr_a"; expires_at = "2026-01-01T00:00Z" }

abbrev event : RealtimeEvent
event = record {
  event_id = "b7fa9ad5-9c93-4cce-a83d-8d0438abef12";
  occurred_at = "2026-01-01T00:00:00.000Z";
  document_id = "doc_1";
  run_id = "run_1";
  workspace_id = "ws_a";
}

abbrev parse : String → Option Json
parse s =
    if s == stringify (claims_json claims)
    then some (claims_json claims)
    else if s == "event"
    then some (event_json event)
    else none

-- Base64url of one text, and a digest of one value.
abbrev platform : Platform
platform = record {
  encode = λ s. "YWJj";
  decode = λ s. stringify (claims_json claims);
  parse = parse;
  hmac = λ secret s. "mac";
  is_date = λ s. true;
  time = λ s. 1000;
}

runs_datetime :
    (is_wire_datetime platform "2026-01-01T23:59:59.123Z" ≡ true)
    × (is_wire_datetime platform "2026-01-01T24:00Z" ≡ false)
    × (is_wire_datetime platform "2026-01-01T20:00:00" ≡ false)
unfolding is_wire_datetime
runs_datetime = (refl, refl, refl)

signed : sign_realtime_ticket platform claims "secret" ≡ ok "YWJj.mac"
unfolding sign_realtime_ticket is_wire_datetime
signed = refl

runs_verify :
    (verify_realtime_ticket platform 900 "YWJj.mac" "secret" ≡ ok claims)
    × (verify_realtime_ticket platform 900 "YWJj.mac.x" "secret"
        ≡ err (message "Invalid realtime ticket"))
    × (verify_realtime_ticket platform 1000 "YWJj.mac" "secret"
        ≡ err (message "Expired realtime ticket"))
unfolding verify_realtime_ticket is_wire_datetime stringify quote
runs_verify = (refl, refl, refl)

claims_are_parsed : platform.parse (stringify (claims_json claims)) ≡ some (claims_json claims)
unfolding stringify quote
claims_are_parsed = refl

verify_realtime_ticket-sign_realtime_ticket_example :
    verify_realtime_ticket platform 900 "YWJj.mac" "secret"
    ≡ (if leb 1000 900 then err (message "Expired realtime ticket") else ok claims)
verify_realtime_ticket-sign_realtime_ticket_example =
    verify_realtime_ticket-sign_realtime_ticket platform 900 "secret" claims "YWJj.mac" signed refl
      refl refl refl refl claims_are_parsed

verify_realtime_ticket-IsSigned_example : IsSigned platform 900 "secret" "YWJj.mac" claims
verify_realtime_ticket-IsSigned_example =
    verify_realtime_ticket-IsSigned platform 900 "secret" "YWJj.mac" claims runs_verify.0

-- Dependencies that let the one subject into the one workspace.
abbrev open_dependencies : Dependencies
open_dependencies = record {
  platform = platform;
  publish_api_key = "key";
  authenticate = authenticate_ticket platform "secret";
  authorize_workspace = λ subject workspace_id. ok (subject == "usr_a" && workspace_id == "ws_a");
  cors_origin = some "https://app";
}

abbrev post : Request
post = record { method = "POST"; url = "/internal/events"; api_key = some "key"; body = "event" }

abbrev with_socket : Server
with_socket = (connect open_dependencies 900 "s1" (some "https://app") "YWJj.mac" initial).1

abbrev socket : Socket
socket = record { id = "s1"; subject = "usr_a"; rooms = "s1" ∷ [] }

runs_connect : with_socket.sockets ≡ socket ∷ []
unfolding connect authenticate_ticket verify_realtime_ticket is_wire_datetime ◌>>=◌ return stringify
    quote
runs_connect = refl

runs_connect_origin :
    (connect open_dependencies 900 "s1" (some "https://evil") "YWJj.mac" initial).0
    ≡ err (message "forbidden")
unfolding connect
runs_connect_origin = refl

abbrev with_room : Server
with_room = (join_workspace open_dependencies socket (str "ws_a") with_socket).1

abbrev joined_socket : Socket
joined_socket = record socket { rooms = workspace_room "ws_a" ∷ "s1" ∷ [] }

runs_join : with_room.sockets ≡ joined_socket ∷ []
unfolding connect authenticate_ticket verify_realtime_ticket is_wire_datetime ◌>>=◌ return stringify
    quote join_workspace
runs_join = refl

runs_post :
    ((handle_request open_dependencies post with_room).0 ≡ 202)
    × ((handle_request open_dependencies (record post { api_key = none }) with_room).0 ≡ 401)
    × ((handle_request open_dependencies (record post { body = "x" }) with_room).0 ≡ 400)
unfolding handle_request parse_event rooms_for_event is_wire_datetime stringify quote
runs_post = (refl, refl, refl)

body_is_parsed : platform.parse "event" ≡ some (event_json event)
unfolding stringify quote
body_is_parsed = refl

event_is_parsed : parse_event platform (event_json event) ≡ some event
unfolding parse_event is_wire_datetime
event_is_parsed = refl

joined_socket_is_there : Memᴰ joined_socket with_room.sockets
unfolding connect authenticate_ticket verify_realtime_ticket is_wire_datetime ◌>>=◌ return stringify
    quote join_workspace
joined_socket_is_there = Memᴰ.head refl

handle_request-sent_example :
    ((handle_request open_dependencies post with_room).0 ≡ 202)
    × Memᴰ (to_socket joined_socket event) (handle_request open_dependencies post with_room).1.sent
handle_request-sent_example =
    handle_request-sent open_dependencies post with_room (event_json event) event joined_socket refl
      refl refl body_is_parsed event_is_parsed joined_socket_is_there refl

socket_is_there : Memᴰ socket with_socket.sockets
unfolding connect authenticate_ticket verify_realtime_ticket is_wire_datetime ◌>>=◌ return stringify
    quote
socket_is_there = Memᴰ.head refl

abbrev after_post : Server
after_post = (handle_request open_dependencies post with_room).1

reached : Reach open_dependencies initial after_post
reached =
    next
      (next (next here (connected 900 "s1" (some "https://app") "YWJj.mac" initial refl tt))
        (joining socket (str "ws_a") with_socket socket_is_there))
      (requested post with_room)

Reach-IsEntitled_example : All (IsEntitled open_dependencies) after_post.sent
Reach-IsEntitled_example = Reach-IsEntitled open_dependencies reached

abbrev of_main : Dependencies
of_main = main_dependencies platform "key" "secret" none

main-sends_nothing_example : (handle_request of_main post initial).1.sent ≡ []
main-sends_nothing_example =
    main-sends_nothing platform "key" "secret" none (next here (requested post initial))
