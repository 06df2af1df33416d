-- ===== src/Demo/Notices.antt =====
-- What the slots of the two example programs write to the console, but for those for messages
-- (example/server/main.cpp and example/client/main.cpp). The texts of errors are left out.
use lnetlib.Base.{List, [], ◌∷◌}
use lnetlib.Bytes.{ℤ}
use lnetlib.Server.State as Hosts
use lnetlib.Client.State as Guests

-- The lines, by what they say.
pub data Notice : Type 0 where
  client_connected client_disconnected : Notice
  connection_refused connected disconnected : Notice
  error : ℤ → Notice

-- The server's slots for `connected`, `disconnected` and `error`.
abbrev pub server_notices : List Hosts.Effect → List Notice
server_notices [] = []
server_notices (Hosts.connected conn ∷ xs) = client_connected ∷ server_notices xs
server_notices (Hosts.disconnected conn ∷ xs) = client_disconnected ∷ server_notices xs
server_notices (Hosts.error conn code ∷ xs) = error code ∷ server_notices xs
server_notices (_ ∷ xs) = server_notices xs

-- The client's slots for `refused`, `connected`, `disconnected` and `error`.
abbrev pub client_notices : List Guests.Effect → List Notice
client_notices [] = []
client_notices (Guests.emitted Guests.refused ∷ xs) = connection_refused ∷ client_notices xs
client_notices (Guests.emitted Guests.connected ∷ xs) = connected ∷ client_notices xs
client_notices (Guests.emitted Guests.disconnected ∷ xs) = disconnected ∷ client_notices xs
client_notices (Guests.emitted (Guests.error code) ∷ xs) = error code ∷ client_notices xs
client_notices (_ ∷ xs) = client_notices xs
