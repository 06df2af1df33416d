-- ===== src/Client/Lifecycle.antt =====
-- The life of a client (client.cpp) over any sequence of calls and events.
use lnetlib.Base.{
  ℕ, ◌≡◌, refl, ap, ◌∙◌, Bool, true, false, List, [], ◌∷◌, Option, none, some, ◌>>=◌, if◌then◌else◌,
}
use lnetlib.Client.State.{Signal, Client, Program, emit, client, disconnect}
use lnetlib.Client.Connecting.{
  Outcome, returned, thrown, blocked, create_session, try_connect, resolved, check_encryption,
  connect, connected_handler, closed_slot, error_slot, received_slot,
}

-- What happens to a client: the program calls it, a session gets a connection or fails, and the
-- connection closes, reports an error or receives a message.
pub data Event : Type 0 where
  connects : Bool → ℕ → Event
  disconnects : Event
  accepted : ℕ → Option ℕ → Event
  failed : ℕ → Option ℕ → ℕ → Event
  closes : Event
  reports : ℕ → Event
  gets : ℕ → Event

-- The client as a call leaves it, by returning or by an exception.
abbrev pub left_by : Outcome → Option Client
left_by (returned c) = some c
left_by (thrown c) = some c
left_by blocked = none

module _ (connection_refused : ℕ) (p : Program) where
  unfoldable pub handle : Event → Client → Option Client
  handle (connects found session) c = left_by (connect p found session c)
  handle disconnects c = some (disconnect c)
  handle (accepted session conn) c = connected_handler connection_refused p session conn none c
  handle (failed session conn code) c =
      connected_handler connection_refused p session conn (some code) c
  handle closes c = closed_slot p c
  handle (reports code) c = error_slot p code c
  handle (gets stream) c = received_slot p stream c

  unfoldable pub run : List Event → Client → Option Client
  run [] c = some c
  run (x ∷ xs) c = handle x c >>= run xs

-- What a client looks like from outside.
pub record Phase : Type 0 where
  pub running : Bool
  pub stopped : Bool
  pub connection : Option ℕ

abbrev pub phase : Client → Phase
phase c = record { running = c.running; stopped = c.stopped; connection = c.connection }

-- The phases by the history alone: only a call of `connect` starts the client, only a call of
-- `disconnect` ends it, which stops its i/o service for good, and a connection stays once it is
-- there.
abbrev pub next : Phase → Event → Phase
next f (connects found session) = record f { running = true }
next f disconnects = if f.running then record f { running = false; stopped = true } else f
next f (accepted session conn) = record f { connection = conn }
next f (failed session conn code) = f
next f closes = f
next f (reports code) = f
next f (gets stream) = f

abbrev pub phases : Phase → List Event → Phase
phases f [] = f
phases f (x ∷ xs) = phases (next f x) xs

-- Every slot returns, and leaves the client's own state as it is.
abbrev pub IsPolite : Program → Type 0
IsPolite p =
    (x : Signal) (c : Client)
    → (d : Client) × (p x c ≡ some d) × (phase d ≡ phase c) × (d.last_error ≡ c.last_error)

-- A step that returns, to a client in this phase and still without a pending encryption error.
abbrev Reaches : Option Client → Phase → Type 0
Reaches r f = (d : Client) × (r ≡ some d) × (phase d ≡ f) × (d.last_error ≡ [])

module _ (connection_refused : ℕ) (p : Program) (polite : IsPolite p) where
  emit-Reaches : (x : Signal) (c : Client) → c.last_error ≡ [] → Reaches (emit p x c) (phase c)
  unfolding emit
  emit-Reaches x c h = let q = polite x _ in (q.0, q.1, q.2, q.3 ∙ h)

  resolved-Reaches :
      (found : Bool) (session : ℕ) (c : Client)
      → c.last_error ≡ []
      → Reaches (left_by (resolved found session c)) (phase c)
  unfolding try_connect create_session
  resolved-Reaches true session c h = (_, refl, refl, h)
  resolved-Reaches false session c h = (_, refl, refl, h)

  connect_if-Reaches :
      (b found : Bool) (session : ℕ) (c : Client)
      → c.running ≡ b
      → c.last_error ≡ []
      → Reaches
          (left_by (if b then returned c else check_encryption p found session [] c))
          (record (phase c) { running = true })
  connect_if-Reaches true found session c e h =
      (c, refl, ap (λ x. record (phase c) { running = x }) e, h)
  connect_if-Reaches false found session c e h = resolved-Reaches found session _ h

  connect-Reaches :
      (found : Bool) (session : ℕ) (c : Client)
      → c.last_error ≡ []
      → Reaches (left_by (connect p found session c)) (record (phase c) { running = true })
  unfolding connect
  connect-Reaches found session c h =
      let r = connect_if-Reaches c.running found session c refl h in
      (
        r.0,
        ap (λ t. left_by (if c.running then returned c else check_encryption p found session t c)) h
            ∙ r.1,
        r.2,
        r.3,
      )

  disconnect_if-Reaches :
      (b : Bool) (c d : Client) (f : Phase)
      → phase d ≡ f
      → c.last_error ≡ []
      → d.last_error ≡ []
      → Reaches (some (if b then d else c)) (if b then f else phase c)
  disconnect_if-Reaches true c d f e h h' = (d, refl, e, h')
  disconnect_if-Reaches false c d f e h h' = (c, refl, refl, h)

  handle-Reaches :
      (x : Event) (c : Client)
      → c.last_error ≡ []
      → Reaches (handle connection_refused p x c) (next (phase c) x)
  unfolding handle disconnect connected_handler closed_slot error_slot received_slot
  handle-Reaches (connects found session) c h = connect-Reaches found session c h
  handle-Reaches disconnects c h = disconnect_if-Reaches c.running c _ _ refl h h
  handle-Reaches (accepted session conn) c h = emit-Reaches _ _ h
  handle-Reaches (failed session conn code) c h = emit-Reaches _ c h
  handle-Reaches closes c h = emit-Reaches _ c h
  handle-Reaches (reports code) c h = emit-Reaches _ c h
  handle-Reaches (gets stream) c h = emit-Reaches _ c h

  run-Reaches :
      (xs : List Event) (c : Client)
      → c.last_error ≡ []
      → Reaches (run connection_refused p xs c) (phases (phase c) xs)
  unfolding run
  run-Reaches [] c h = (c, refl, refl, h)
  run-Reaches (x ∷ xs) c h =
      let first = handle-Reaches x c h in
      let rest = run-Reaches xs first.0 first.3 in
      (
        rest.0,
        ap (λ r. r >>= run connection_refused p xs) first.1 ∙ rest.1,
        rest.2 ∙ ap (λ f. phases f xs) first.2,
        rest.3,
      )

  -- With slots that return and leave the client's own state alone, and no pending encryption error,
  -- any calls and events from a new client on return, and leave the client in the phase that the
  -- history alone tells: it runs from a call of `connect` to a call of `disconnect`, whether the
  -- host was found and whatever sessions and connections did; its i/o service is stopped by the
  -- first `disconnect` of a running client and never set going again; and its connection is the one
  -- of the last session that got through, also after it closed.
  pub run-phases :
      (xs : List Event)
      → (d : Client) × (run connection_refused p xs client ≡ some d)
        × (phase d ≡ phases (record { running = false; stopped = false; connection = none }) xs)
  unfolding client
  run-phases xs = let r = run-Reaches xs client refl in (r.0, r.1, r.2)

-- No call of `disconnect` is among the events.
abbrev pub Undisconnected : List Event → Type 0
Undisconnected [] = Unit {0}
Undisconnected (disconnects ∷ xs) = ⊥
Undisconnected (x ∷ xs) = Undisconnected xs

phases_running :
    (f : Phase) (xs : List Event)
    → f.running ≡ true
    → Undisconnected xs
    → (phases f xs).running ≡ true
phases_running f [] h u = h
phases_running f (connects found session ∷ xs) h u = phases_running _ xs refl u
phases_running f (disconnects ∷ xs) h u = elim u [ ]
phases_running f (accepted session conn ∷ xs) h u = phases_running _ xs h u
phases_running f (failed session conn code ∷ xs) h u = phases_running f xs h u
phases_running f (closes ∷ xs) h u = phases_running f xs h u
phases_running f (reports code ∷ xs) h u = phases_running f xs h u
phases_running f (gets stream ∷ xs) h u = phases_running f xs h u

connect_running :
    (p : Program) (found : Bool) (session : ℕ) (c : Client)
    → c.running ≡ true
    → connect p found session c ≡ returned c
unfolding connect
connect_running p found session c h =
    ap (λ b. if b then returned c else check_encryption p found session c.last_error c) h

-- With slots that return and leave the client's own state alone, on a client without a pending
-- encryption error: once `connect` has been called, every later call of it returns at once and
-- changes nothing until `disconnect` is called, although the host was not found, the connection was
-- refused, or the connection has closed meanwhile.
pub connect_again :
    (connection_refused : ℕ) (p : Program)
    → IsPolite p
    → (found again : Bool) (session other : ℕ) (xs : List Event) (c : Client) → c.last_error ≡ []
    → Undisconnected xs
    → (d : Client) × (run connection_refused p (connects found session ∷ xs) c ≡ some d)
      × (connect p again other d ≡ returned d)
connect_again connection_refused p polite found again session other xs c h u =
    let r = run-Reaches connection_refused p polite (connects found session ∷ xs) c h in
    let on = phases_running (next (phase c) (connects found session)) xs refl u in
    (r.0, r.1, connect_running p again other r.0 (ap (λ f. f.running) r.2 ∙ on))
