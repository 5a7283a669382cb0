-- ===== src/Realtime/Steps.antt =====
-- The steps of the server, the rooms and sockets of a sound state, and what an emission sends.
use Prim.Native.Char.{Char, code}
use Prim.Native.String as Text
use text.Mathlib.TextLemmas.{cons-append, nil-append, append_cancel_left, head-eq_of_cons-eq}
use vkit_orbit.Base.{
  ℕ, String, Bool, true, false, ◌||◌, ◌≡◌, ◌⊎◌, refl, sym, ap, ◌∙◌, subst, Option, none, some, List,
  [], ◌∷◌, Memᴰ, All, All-append, includes, arith, ◌==◌, eq_iff, inl, inr, Bool-cases,
}
use vkit_orbit.Base.Texts.{is_char, has_char}
use vkit_orbit.Json.{Json}
use vkit_orbit.Json.Print.{◌<>◌}
use vkit_orbit.Store.Client.{ok}
use vkit_orbit.Realtime.Events.{RealtimeEvent, parse_event, rooms_for_event}
use vkit_orbit.Realtime.Server.{
  Dependencies, Socket, Sending, Server, Request, sendings, emit, emit_all, publish_event,
  publish_parsed, handle_request, connect, workspace_room, join_workspace, disconnect,
}

has_char-append : (n : ℕ) (a b : String) → has_char n (a <> b) ≡ (has_char n a || has_char n b)
has_char-append n Text.[] b = ap (has_char n) (nil-append b)
has_char-append n (Text.◌∷◌ c a) b =
    ap (has_char n) (cons-append c a b) ∙ rw (has_char-append n a b) (assoc (is_char n c) _ _)
  where
    assoc : (x y z : Bool) → (x || (y || z)) ≡ ((x || y) || z)
    assoc x y z = ground arith

differ : (c d : Char) (a b s t : String) → Text.◌∷◌ c a <> s ≡ Text.◌∷◌ d b <> t → code c ≡ code d
differ c d a b s t e =
    ap code (head-eq_of_cons-eq (sym (cons-append c a s) ∙ e ∙ cons-append d b t))

module _ (deps : Dependencies) where
  -- The steps of the server. A new socket's id is given to no other socket and has no colon.
  pub data Step : Server → Server → Type 0 where
    requested : (r : Request) (s : Server) → Step s (handle_request deps r s).1
    connected :
        (now : ℕ) (id : String) (origin : Option String) (ticket : String) (s : Server)
        → has_char b':' id ≡ false
        → All (λ (x : Socket). (x.id == id) ≡ false) s.sockets
        → Step s (connect deps now id origin ticket s).1
    joining :
        (socket : Socket) (asked : Json) (s : Server)
        → Memᴰ socket s.sockets
        → Step s (join_workspace deps socket asked s).1
    disconnected : (id : String) (s : Server) → Step s (disconnect id s)

  pub data Reach (s : Server) : Server → Type 0 where
    here : Reach s s
    next : {t u : Server} → Reach s t → Step t u → Reach s u

  abbrev pub MayRead : Socket → String → Type 0
  MayRead socket workspace_id = deps.authorize_workspace socket.subject workspace_id ≡ ok true

  -- A room of a socket: its own, or that of a workspace.
  abbrev pub IsRoom : Socket → String → Type 0
  IsRoom socket room =
      (room ≡ socket.id)
      ⊎ ((workspace_id : String) × (room ≡ workspace_room workspace_id)
          × MayRead socket workspace_id)

  abbrev pub IsProper : Socket → Type 0
  IsProper socket = (has_char b':' socket.id ≡ false) × All (IsRoom socket) socket.rooms

  abbrev pub AreDistinct : List Socket → Type 0
  AreDistinct [] = Unit
  AreDistinct (s ∷ ss) = All (λ (x : Socket). (x.id == s.id) ≡ false) ss × AreDistinct ss

  abbrev pub IsEntitled : Sending → Type 0
  IsEntitled d = MayRead d.socket d.event.workspace_id

  abbrev pub IsSound : Server → Type 0
  IsSound s = All IsProper s.sockets × AreDistinct s.sockets × All IsEntitled s.sent

  module _ (event : RealtimeEvent) where
    -- The rooms of the event.
    abbrev IsTarget : String → Type 0
    IsTarget room =
        (room ≡ "document:" <> event.document_id)
        ⊎ ((room ≡ "run:" <> event.run_id) ⊎ (room ≡ workspace_room event.workspace_id))

    colon : (room : String) → IsTarget room → has_char b':' room ≡ true
    colon room (inl e) = ap (has_char b':') e ∙ has_char-append b':' "document:" event.document_id
    colon room (inr (inl e)) = ap (has_char b':') e ∙ has_char-append b':' "run:" event.run_id
    colon room (inr (inr e)) =
        ap (has_char b':') e ∙ has_char-append b':' "workspace:" event.workspace_id

    entitled_room :
        (socket : Socket) (room : String)
        → has_char b':' socket.id ≡ false
        → IsTarget room
        → IsRoom socket room
        → MayRead socket event.workspace_id
    entitled_room socket room plain target (inl own) =
        absurd (cc (colon room target, ap (has_char b':') own, plain))
    entitled_room socket room plain (inl e) (inr (w, r, may)) =
        absurd
          (omega (arith, differ "d" "w" "ocument:" "orkspace:" event.document_id w (sym e ∙ r)))
    entitled_room socket room plain (inr (inl e)) (inr (w, r, may)) =
        absurd (omega (arith, differ "r" "w" "un:" "orkspace:" event.run_id w (sym e ∙ r)))
    entitled_room socket room plain (inr (inr e)) (inr (w, r, may)) =
        subst (MayRead socket) (append_cancel_left "workspace:" w event.workspace_id (sym r ∙ e))
          may

    sendings-IsEntitled :
        (room : String) (ss : List Socket)
        → IsTarget room
        → All IsProper ss
        → All IsEntitled (sendings event room ss)
    sendings-IsEntitled room [] target h = tt
    sendings-IsEntitled room (s ∷ ss) target ((plain, rooms), h) =
        elim (Bool-cases (includes s.rooms room)) [
          | inr e ↦ rw e (sendings-IsEntitled room ss target h)
          | inl e ↦ rw e (
            entitled_room s room plain target (room_in s.rooms rooms e),
            sendings-IsEntitled room ss target h,
          )
        ]
      where
        room_in : (rs : List String) → All (IsRoom s) rs → includes rs room ≡ true → IsRoom s room
        room_in [] a i = absurd (cc i)
        room_in (r ∷ rs) (p, a) i = elim (Bool-cases (r == room)) [
          | inl e ↦ subst (IsRoom s) ((eq_iff r room).0 e) p
          | inr e ↦ room_in rs a (rw e at i)
        ]

    emit_all-IsSound :
        (rooms : List String) (s : Server)
        → All IsTarget rooms
        → IsSound s
        → IsSound (emit_all event rooms s)
    emit_all-IsSound [] s t h = h
    emit_all-IsSound (room ∷ rooms) s (t, ts) (proper, distinct, sent) =
        emit_all-IsSound rooms (emit event room s) ts (
          proper,
          distinct,
          All-append IsEntitled (sendings event room s.sockets) s.sent
              (sendings-IsEntitled room s.sockets t proper) sent,
        )

    rooms_for_event-IsTarget : All IsTarget (rooms_for_event event)
    unfolding rooms_for_event
    rooms_for_event-IsTarget = (inl refl, (inr (inl refl), (inr (inr refl), tt)))

  published_one :
      (o : Option RealtimeEvent) (s : Server) → IsSound s → IsSound (publish_event o s).1
  published_one none s h = h
  published_one (some event) s h =
      emit_all-IsSound event (rooms_for_event event) s (rooms_for_event-IsTarget event) h

  pub publish_parsed-IsSound :
      (o : Option Json) (s : Server) → IsSound s → IsSound (publish_parsed deps.platform o s).1
  publish_parsed-IsSound none s h = h
  publish_parsed-IsSound (some v) s h = published_one (parse_event deps.platform v) s h
