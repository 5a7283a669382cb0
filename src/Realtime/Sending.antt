-- ===== src/Realtime/Sending.antt =====
-- An event that is posted reaches every socket in its workspace's room.
use text.Mathlib.TextPositions.{eq_refl}
use mathlib.Core.List.Memᴰ as Mem
use vkit_orbit.Base.{
  String, true, false, ◌&&◌, ◌≡◌, refl, sym, ap, subst, some, List, [], ◌∷◌, Memᴰ, includes, ◌==◌,
  eq_iff, inl, inr, Bool-cases,
}
use vkit_orbit.Json.{Json}
use vkit_orbit.Json.Print.{◌<>◌}
use vkit_orbit.Realtime.Events.{RealtimeEvent, parse_event, rooms_for_event}
use vkit_orbit.Realtime.Server.{
  Dependencies, Socket, Sending, Server, Request, sendings, emit, emit_all, handle_request,
  workspace_room,
}

abbrev pub to_socket : Socket → RealtimeEvent → Sending
to_socket socket event = record { socket = socket; event = event }

sendings-mem :
    (event : RealtimeEvent) (room : String) (ss : List Socket) (socket : Socket)
    → Memᴰ socket ss
    → includes socket.rooms room ≡ true
    → Memᴰ (to_socket socket event) (sendings event room ss)
sendings-mem event room [] socket m h = elim m [ ]
sendings-mem event room (s ∷ ss) socket (Memᴰ.head e) h =
    let there : includes s.rooms room ≡ true =
      subst (λ (x : Socket). includes x.rooms room ≡ true) e h in
    rw there (Memᴰ.head (ap (λ x. to_socket x event) e))
sendings-mem event room (s ∷ ss) socket (Memᴰ.tail m) h =
    let later = sendings-mem event room ss socket m h in
    elim (Bool-cases (includes s.rooms room)) [
      | inl e ↦ rw e (Memᴰ.tail later)
      | inr e ↦ rw e later
    ]

emit_all-kept :
    (event : RealtimeEvent) (rooms : List String) (s : Server) (d : Sending)
    → Memᴰ d s.sent
    → Memᴰ d (emit_all event rooms s).sent
emit_all-kept event [] s d m = m
emit_all-kept event (room ∷ rooms) s d m =
    emit_all-kept event rooms (emit event room s) d
      (Mem.append_right (sendings event room s.sockets) m)

module _ (deps : Dependencies) (r : Request) (s : Server) (v : Json) (event : RealtimeEvent) where
  -- A posted event with the publisher's key is accepted, and is sent to every socket that is then in
  -- the room of the event's workspace.
  pub handle_request-sent :
      (socket : Socket)
      → (r.method == "POST") ≡ true
      → (r.url == "/internal/events") ≡ true
      → r.api_key ≡ some deps.publish_api_key
      → deps.platform.parse r.body ≡ some v
      → parse_event deps.platform v ≡ some event
      → Memᴰ socket s.sockets
      → includes socket.rooms (workspace_room event.workspace_id) ≡ true
      → ((handle_request deps r s).0 ≡ 202)
        × Memᴰ (to_socket socket event) (handle_request deps r s).1.sent
  unfolding handle_request rooms_for_event
  handle_request-sent socket post url key body parsed m room =
      let health : (r.method == "GET" && r.url == "/health") ≡ false = not_get post in
      let after_run : Server =
        emit event ("run:" <> event.run_id) (emit event ("document:" <> event.document_id) s) in
      let sent =
        Mem.append_left after_run.sent
          (sendings-mem event (workspace_room event.workspace_id) s.sockets socket m room) in
      rw (health, post, url, key, eq_refl deps.publish_api_key, body) (rw parsed (refl, sent))
    where
      not_get : (r.method == "POST") ≡ true → (r.method == "GET" && r.url == "/health") ≡ false
      not_get is_post =
          subst (λ x. (x == "GET" && r.url == "/health") ≡ false)
            (sym ((eq_iff r.method "POST").0 is_post)) refl
