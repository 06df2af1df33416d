-- ===== src/Examples/Tables.antt =====
-- The theorems on the table of callbacks at concrete inputs.
use lnetlib.Base.{ℕ, List, [], ◌∷◌, ◌++◌}
use lnetlib.Bytes.{little}
use lnetlib.Streambuf.{list_streambuf}
use lnetlib.Connection.State.{connection}
use lnetlib.Connection.Reads.{Inbox}
use lnetlib.Connection.Frames.{Message, frames}

abbrev three : List Message
three =
    record { command = 7; uid = 0; payload = [] }
    ∷ record { command = 7; uid = 3; payload = 5 ∷ [] }
    ∷ record { command = 8; uid = 3; payload = [] }
    ∷ []

-- Callbacks for the uids 3 and 4.
abbrev waiting : List (ℕ × ℕ) → Inbox list_streambuf ℕ
waiting ks = record {
  conn = record connection { callbacks = ks };
  served = 0;
  inbound = frames little three ++ [];
}

abbrev up : List (ℕ × ℕ)
up = (3, 9) ∷ (4, 1) ∷ []

abbrev down : List (ℕ × ℕ)
down = (4, 1) ∷ (3, 9) ∷ []
