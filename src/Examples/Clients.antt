-- ===== src/Examples/Clients.antt =====
-- The theorems on clients, sessions and sockets at concrete histories.
use lnetlib.Base.{ℕ, ◌≡◌, refl, true, List, [], ◌∷◌, ◌++◌, none, some}
use lnetlib.Encryption.Options.{Encryption, encryption, Tls}
use lnetlib.Encryption.Files.{Text}
use lnetlib.Client.State.{Client, Program, client}
use lnetlib.Client.Lifecycle.{
  Event, connects, disconnects, accepted, failed, closes, run, phase, IsPolite, run-phases,
}
use lnetlib.Session.Socket.{Tcp, socket_ssl}
use lnetlib.Session.Socket
use lnetlib.Session.State.{SslSession, as_client}
use lnetlib.Session.History.{ssl_started, ssl_established, ssl_handshaken}

-- A program whose slots do nothing.
abbrev silent : Program
silent x c = some c

silent-IsPolite : IsPolite silent
silent-IsPolite x c = (c, refl, refl, refl)

-- The first connect is refused, the second call does nothing, and after a disconnect a third works.
abbrev history : List Event
history =
    connects true 60
    ∷ failed 60 none 111
    ∷ connects true 61
    ∷ disconnects
    ∷ connects true 62
    ∷ accepted 62 (some 5)
    ∷ closes
    ∷ []

run-phases_example :
    (d : Client) × (run 111 silent history client ≡ some d)
    × (phase d ≡ record { running = true; stopped = true; connection = some 5 })
run-phases_example = run-phases 111 silent silent-IsPolite history

abbrev tls : Tls
tls = record {
  Context = List Text;
  Certificate = ℕ;
  new_context = λ m. [];
  add_certificate_authority = λ text c. some (c ++ text ∷ []);
  use_certificate_file = λ text c. some (c ++ text ∷ []);
  use_private_key_file = λ text c. none;
}

abbrev options : Encryption tls
options = encryption tls

abbrev shaken : SslSession tls
shaken =
    ssl_handshaken tls as_client none
      (ssl_established tls as_client none (ssl_started tls as_client options))

abbrev tcp_socket : Socket.Socket
tcp_socket = socket_ssl (record { opened = true; asked = [] })
