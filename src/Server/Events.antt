-- ===== src/Server/Events.antt =====
-- The events of a server (server.cpp), and its clients by the history of these events alone.
use lnetlib.Base.{ℕ, ◌≢◌, List, [], ◌∷◌, ◌++◌, Option, none, some, ◌>>=◌, ◌==◌, if◌then◌else◌}
use lnetlib.Server.State.{Server, Program, stop}
use lnetlib.Server.Accepting.{closed_slot, error_slot, received_slot, connected_handler}

-- What happens to a server: a session gets a connection or fails, and a connection closes, reports
-- an error or receives a message.
pub data Event : Type 0 where
  accepted : ℕ → ℕ → Event
  refused : ℕ → Option ℕ → ℕ → Event
  closed : ℕ → Event
  failed : ℕ → ℕ → Event
  got : ℕ → Event
  stops : Event

unfoldable pub handle : Program → Event → Server → Option Server
handle p (accepted session conn) s = connected_handler p session (some conn) none s
handle p (refused session conn code) s = connected_handler p session conn (some code) s
handle p (closed conn) s = closed_slot p conn s
handle p (failed conn code) s = error_slot p conn code s
handle p (got conn) s = received_slot p conn s
handle p stops s = some (stop s)

unfoldable pub run : Program → List Event → Server → Option Server
run p [] s = some s
run p (x ∷ xs) s = handle p x s >>= run p xs

abbrev pub NotIn : ℕ → List ℕ → Type 0
NotIn c [] = Unit {0}
NotIn c (d ∷ ds) = (d ≢ c) × NotIn c ds

abbrev pub Distinct : List ℕ → Type 0
Distinct [] = Unit {0}
Distinct (c ∷ cs) = NotIn c cs × Distinct cs

abbrev pub without : ℕ → List ℕ → List ℕ
without c [] = []
without c (d ∷ ds) = if d == c then without c ds else d ∷ without c ds

-- The clients that are connected, by the history alone: in the order in which they came.
abbrev pub after_event : List ℕ → Event → List ℕ
after_event cs (accepted session conn) = cs ++ conn ∷ []
after_event cs (refused session conn code) = cs
after_event cs (closed conn) = without conn cs
after_event cs (failed conn code) = cs
after_event cs (got conn) = cs
after_event cs stops = cs

abbrev pub live : List ℕ → List Event → List ℕ
live cs [] = cs
live cs (x ∷ xs) = live (after_event cs x) xs

-- A connection that is accepted is a new object: it is none of those that are connected.
abbrev pub IsFresh : List ℕ → Event → Type 0
IsFresh cs (accepted session conn) = NotIn conn cs
IsFresh cs _ = Unit {0}

abbrev pub AllFresh : List ℕ → List Event → Type 0
AllFresh cs [] = Unit {0}
AllFresh cs (x ∷ xs) = IsFresh cs x × AllFresh (after_event cs x) xs
