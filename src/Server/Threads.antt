-- ===== src/Server/Threads.antt =====
-- Threads of the i/o service in server.cpp: for each client one thread runs add_connection, and
-- another may run the slot for its connection's `closed` at the same time. Each step is what a
-- thread does between two points where another can come in. The slots of the program leave the
-- server alone here, and a connection emits `closed` at most once.
use lnetlib.Base.{ℕ, ◌+◌, ◌≡◌, true, false, List, [], ◌∷◌, ◌++◌, some, ◌==◌, if◌then◌else◌}
use lnetlib.Connection.Sending.{insert}
use lnetlib.Server.State.{connected, disconnected, Server, record_effect}
use lnetlib.Server.Accepting.{remove_connection}

-- How far add_connection has come with a connection.
pub data Adding : Type 0 where
  made hooked inside added : Adding

-- What has become of the connection's `closed`: it is still open; it closed when no slot was
-- connected; the slot waits for the mutex; the slot has removed it; the slot did not find it.
pub data Closing : Type 0 where
  up unheard reporting removed missed : Closing

-- Under the mutex, up to the emission of `connected`.
unfoldable pub enter : ℕ → ℕ → Server → Server
enter conn session s = record_effect (connected conn) (record s {
  locked = true;
  connections = s.connections ++ conn ∷ [];
  sessions = insert conn session s.sessions;
})

unfoldable pub leave : Server → Server
leave s = record s { locked = false }

-- The first half of the slot for `closed`.
unfoldable pub report : ℕ → Server → Server
report conn s = record_effect (disconnected conn) s

pub record Threads : Type 0 where
  pub host : Server
  pub adding : ℕ → Adding
  pub closing : ℕ → Closing

abbrev pub update : {P : Type 0} → (ℕ → P) → ℕ → P → ℕ → P
update f c x d = if d == c then x else f d

-- What remove_connection finds.
abbrev pub found : Adding → Closing
found added = removed
found inside = removed
found hooked = missed
found made = missed

-- Whether `closed` has a slot.
abbrev pub heard : Adding → Closing
heard made = unheard
heard _ = reporting

abbrev pub report_if : Adding → ℕ → Server → Server
report_if made conn s = s
report_if _ conn s = report conn s

pub data Step : Threads → Threads → Type 0 where
  hooks :
      {w : Threads} (c : ℕ)
      → w.adding c ≡ made
      → Step w (record w { adding = update w.adding c hooked })
  enters :
      {w : Threads} (c session : ℕ)
      → w.adding c ≡ hooked
      → w.host.locked ≡ false
      → Step w (record w { host = enter c session w.host; adding = update w.adding c inside })
  leaves :
      {w : Threads} (c : ℕ)
      → w.adding c ≡ inside
      → Step w (record w { host = leave w.host; adding = update w.adding c added })
  closes :
      {w : Threads} (c : ℕ)
      → w.closing c ≡ up
      → Step w (record w {
        host = report_if (w.adding c) c w.host;
        closing = update w.closing c (heard (w.adding c));
      })
  removes :
      {w : Threads} (c : ℕ) (s : Server)
      → w.closing c ≡ reporting
      → remove_connection c w.host ≡ some s
      → Step w (record w { host = s; closing = update w.closing c (found (w.adding c)) })

pub data Reach : Threads → Threads → Type 0 where
  here : {w : Threads} → Reach w w
  next : {u v w : Threads} → Reach u v → Step v w → Reach u w

-- No client has come yet.
abbrev pub idle : Server → Threads
idle s = record {
  host = record s { locked = false; connections = []; sessions = [] };
  adding = λ c. made;
  closing = λ c. up;
}

abbrev pub count : ℕ → List ℕ → ℕ
count c [] = 0
count c (d ∷ ds) = (if d == c then 1 else 0) + count c ds

-- How often a connection stands in the server's list, by its own threads alone.
abbrev pub listed : Adding → Closing → ℕ
listed made x = 0
listed hooked x = 0
listed inside removed = 0
listed inside _ = 1
listed added removed = 0
listed added _ = 1
