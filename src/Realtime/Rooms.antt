-- ===== src/Realtime/Rooms.antt =====
-- Who is sent an event, in any order of requests, connections, joins and disconnections.
use vkit_orbit.Base.{
  ℕ, String, Bool, true, false, not, ◌&&◌, ◌||◌, ◌≡◌, refl, sym, ap, ◌∙◌, subst, Option, List, [],
  ◌∷◌, Memᴰ, All, All-mem, filter, ◌==◌, eq_iff, if◌then◌else◌, inl, inr, Bool-cases,
}
use vkit_orbit.Base.Texts.{has_char}
use vkit_orbit.Json.{Json, str}
use vkit_orbit.Store.Client.{Result, ok, err, Error}
use vkit_orbit.Realtime.Ticket.{Platform}
use vkit_orbit.Realtime.Server.{
  Dependencies, Socket, Sending, Server, Request, publish_parsed, handle_request, admit, connect,
  workspace_room, join_room, may_join, joined, join_workspace, main_dependencies, initial, is_text,
  is_allowed,
}
use vkit_orbit.Realtime.Steps.{
  Step, requested, connected, joining, disconnected, Reach, here, next, MayRead, IsProper,
  AreDistinct, IsEntitled, IsSound, publish_parsed-IsSound,
}

module _ (deps : Dependencies) where
  handle_request-IsSound :
      (r : Request) (s : Server) → (IsSound deps) s → (IsSound deps) (handle_request deps r s).1
  unfolding handle_request
  handle_request-IsSound r s h =
      guarded (r.method == "GET" && r.url == "/health")
        (not (r.method == "POST") || not (r.url == "/internal/events"))
        (not (is_text deps.publish_api_key r.api_key))
    where
      guarded :
          (a b c : Bool)
          → (IsSound deps)
              (if a
                then (200, s)
                else if b
                then (404, s)
                else if c
                then (401, s)
                else publish_parsed deps.platform (deps.platform.parse r.body) s).1
      guarded true b c = h
      guarded false true c = h
      guarded false false true = h
      guarded false false false = publish_parsed-IsSound deps (deps.platform.parse r.body) s h

  connect-IsSound :
      (now : ℕ) (id : String) (origin : Option String) (ticket : String) (s : Server)
      → has_char b':' id ≡ false
      → All (λ (x : Socket). (x.id == id) ≡ false) s.sockets
      → (IsSound deps) s
      → (IsSound deps) (connect deps now id origin ticket s).1
  unfolding connect
  connect-IsSound now id origin ticket s plain fresh (proper, distinct, sent) =
      allowed (is_allowed deps.cors_origin origin) (deps.authenticate now ticket)
    where
      allowed :
          (b : Bool) (r : Result String)
          → (IsSound deps) (if b then admit id r s else (err (Error.message "forbidden"), s)).1
      allowed false r = (proper, distinct, sent)
      allowed true (err e) = (proper, distinct, sent)
      allowed true (ok subject) = (((plain, (inl refl, tt)), proper), (fresh, distinct), sent)

  distinct_same :
      (ss : List Socket) (a b : Socket)
      → (AreDistinct deps) ss
      → Memᴰ a ss
      → Memᴰ b ss
      → (b.id == a.id) ≡ true
      → a ≡ b
  distinct_same [] a b h m n e = elim m [ ]
  distinct_same (s ∷ ss) a b h (Memᴰ.head p) (Memᴰ.head q) e = p ∙ sym q
  distinct_same (s ∷ ss) a b (ne, h) (Memᴰ.head p) (Memᴰ.tail n) e = absurd (
      cc (
        All-mem (λ (x : Socket). (x.id == s.id) ≡ false) ss ne n,
        subst (λ (x : Socket). (b.id == x.id) ≡ true) p e,
      ))
  distinct_same (s ∷ ss) a b (ne, h) (Memᴰ.tail m) (Memᴰ.head q) e =
      let other = All-mem (λ (x : Socket). (x.id == s.id) ≡ false) ss ne m in
      let same : a.id ≡ s.id = sym ((eq_iff b.id a.id).0 e) ∙ ap (λ (x : Socket). x.id) q in
      absurd (cc (other, (eq_iff a.id s.id).1 same))
  distinct_same (s ∷ ss) a b (ne, h) (Memᴰ.tail m) (Memᴰ.tail n) e = distinct_same ss a b h m n e

  module _ (id workspace_id : String) where
    abbrev after_join : List Socket → List Socket
    after_join = join_room id (workspace_room workspace_id)

    join_room-IsProper :
        (ss : List Socket)
        → All (IsProper deps) ss
        → ((x : Socket) → Memᴰ x ss → (x.id == id) ≡ true → (MayRead deps) x workspace_id)
        → All (IsProper deps) (after_join ss)
    join_room-IsProper [] h may = tt
    join_room-IsProper (s ∷ ss) ((plain, rooms), h) may =
        let rest = join_room-IsProper ss h (λ x m. may x (Memᴰ.tail m)) in
        elim (Bool-cases (s.id == id)) [
          | inl e ↦
              rw e (((plain, (inr (workspace_id, refl, may s (Memᴰ.head refl) e), rooms)), rest))
          | inr e ↦ rw e ((plain, rooms), rest)
        ]

    join_room-others :
        (k : String) (ss : List Socket)
        → All (λ (x : Socket). (x.id == k) ≡ false) ss
        → All (λ (x : Socket). (x.id == k) ≡ false) (after_join ss)
    join_room-others k [] h = tt
    join_room-others k (s ∷ ss) (ne, h) = elim (Bool-cases (s.id == id)) [
      | inl e ↦ rw e (ne, join_room-others k ss h)
      | inr e ↦ rw e (ne, join_room-others k ss h)
    ]

    join_room-AreDistinct :
        (ss : List Socket) → (AreDistinct deps) ss → (AreDistinct deps) (after_join ss)
    join_room-AreDistinct [] h = tt
    join_room-AreDistinct (s ∷ ss) (ne, h) = elim (Bool-cases (s.id == id)) [
      | inl e ↦ rw e (join_room-others s.id ss ne, join_room-AreDistinct ss h)
      | inr e ↦ rw e (join_room-others s.id ss ne, join_room-AreDistinct ss h)
    ]

  joined-IsSound :
      (socket : Socket) (asked : Json) (r : Result Bool) (s : Server)
      → Memᴰ socket s.sockets
      → may_join deps socket.subject asked ≡ r
      → (IsSound deps) s
      → (IsSound deps) (joined socket.id asked r s).1
  joined-IsSound socket (str w) (ok true) s m may (proper, distinct, sent) = (
    join_room-IsProper socket.id w s.sockets proper (λ x n e.
        subst (λ y. (MayRead deps) y w) (distinct_same s.sockets socket x distinct m n e) may),
    join_room-AreDistinct socket.id w s.sockets distinct,
    sent,
  )
  joined-IsSound socket asked (ok false) s m may h = h
  joined-IsSound socket asked (err e) s m may h = h
  joined-IsSound socket asked (ok true) s m may h = absurd (cc may)

  filter-All :
      (P : Socket → Type 0) (p : Socket → Bool) (ss : List Socket) → All P ss → All P (filter p ss)
  filter-All P p [] h = tt
  filter-All P p (s ∷ ss) (a, h) = elim (Bool-cases (p s)) [
    | inl e ↦ rw e (a, filter-All P p ss h)
    | inr e ↦ rw e (filter-All P p ss h)
  ]

  filter-AreDistinct :
      (p : Socket → Bool) (ss : List Socket)
      → (AreDistinct deps) ss
      → (AreDistinct deps) (filter p ss)
  filter-AreDistinct p [] h = tt
  filter-AreDistinct p (s ∷ ss) (ne, h) = elim (Bool-cases (p s)) [
    | inl e ↦
        rw e
          (filter-All (λ (x : Socket). (x.id == s.id) ≡ false) p ss ne, filter-AreDistinct p ss h)
    | inr e ↦ rw e (filter-AreDistinct p ss h)
  ]

  Step-IsSound : {s t : Server} → (Step deps) s t → (IsSound deps) s → (IsSound deps) t
  unfolding join_workspace
  Step-IsSound (requested r s) h = handle_request-IsSound r s h
  Step-IsSound (connected now id origin ticket s plain fresh) h =
      connect-IsSound now id origin ticket s plain fresh h
  Step-IsSound (joining socket asked s m) h =
      joined-IsSound socket asked (may_join deps socket.subject asked) s m refl h
  Step-IsSound (disconnected id s) (proper, distinct, sent) =
      (filter-All (IsProper deps) _ s.sockets proper, filter-AreDistinct _ s.sockets distinct, sent)

  Reach-IsSound : {s : Server} → (Reach deps) initial s → (IsSound deps) s
  Reach-IsSound here = (tt, tt, tt)
  Reach-IsSound (next r st) = Step-IsSound st (Reach-IsSound r)

  -- In any order of requests, connections, joins and disconnections from the start of the server, an
  -- event is sent only to sockets whose subject `authorizeWorkspace` has let into the event's workspace.
  pub Reach-IsEntitled : {s : Server} → (Reach deps) initial s → All (IsEntitled deps) s.sent
  Reach-IsEntitled r = (Reach-IsSound r).2

-- A server with the dependencies of main.ts never sends an event to anyone, in whatever order of
-- requests, connections, joins and disconnections: it lets nobody into a workspace.
pub main-sends_nothing :
    (platform : Platform) (publish_api_key ticket_secret : String) (cors_origin : Option String)
    {s : Server}
    → Reach (main_dependencies platform publish_api_key ticket_secret cors_origin) initial s
    → s.sent ≡ []
main-sends_nothing platform key secret origin {s} r =
    empty s.sent (Reach-IsEntitled (main_dependencies platform key secret origin) r)
  where
    empty :
        (sent : List Sending)
        → All (IsEntitled (main_dependencies platform key secret origin)) sent
        → sent ≡ []
    empty [] h = refl
    empty (d ∷ sent) (no_, h) = absurd (cc no_)
