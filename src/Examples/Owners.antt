-- ===== src/Examples/Owners.antt =====
-- The theorems on the owners of connections at concrete inputs.
use mathlib.Core.Option
use lnetlib.Base.{◌≡◌, refl, true, false, [], ◌∷◌, ◌++◌, none, some, ◌>>=◌, arith}
use lnetlib.Signal.State.{Store, signal, slot}
use lnetlib.Connection.Owners.{closed, error, received, Shared, emit_shared, emit_each}
use lnetlib.Connection.Attaching.{IsAttached, attached}
use lnetlib.Connection.Shutting.{closing}
use lnetlib.Server.State.{Server, server}
use lnetlib.Server.Registry.{IsRegistered}
use lnetlib.Server.Owners.{server_slots, closing-forgotten}
use lnetlib.Server.Custody.{leaves, fails, gets, quits, copies, drops, life, custody}
use lnetlib.Server.Admission.{admit, IsNew, admit-fates, admit_ends}
use lnetlib.Client.State.{Client, client}
use lnetlib.Client.Owners.{slots, told, client_survives}
use lnetlib.Examples.Programs.{idle, idle-IsIdle}

-- A server with two clients, and a third that has just come.
abbrev host : Server
host = record server { running = true; connections = 7 ∷ 8 ∷ []; sessions = (7, 1) ∷ (8, 2) ∷ [] }

host-IsRegistered : IsRegistered host
unfolding server
host-IsRegistered = record { paired = refl; distinct = omega arith; free = refl }

abbrev store : {R : Type 0} → R → Store (Shared R)
store r = record {
  signals = λ g. some (attached g);
  slots = λ o. slot;
  flags = λ d. false;
  next = 3;
  world = record { is_open = true; registry = r; kept = 0; passed = 0 };
}

store-IsAttached : {R : Type 0} (r : R) → IsAttached (store r)
store-IsAttached r = record {
  signal_0 = refl;
  signal_1 = refl;
  signal_2 = refl;
  flag_0 = refl;
  flag_1 = refl;
  flag_2 = refl;
}

abbrev new : Store (Shared Server)
new = record (store host) { signals = λ g. some signal; next = 0 }

new-IsNew : IsNew new
new-IsNew = record {
  next_free = refl;
  closed_new = refl;
  error_new = refl;
  received_new = refl;
  unkept = refl;
  unpassed = refl;
}

-- Nobody but the server has a pointer.
closing-forgotten_example :
    emit_shared (closing (server_slots idle 7 some)) received (store host) ≡ none
closing-forgotten_example =
    closing-forgotten idle 7 idle-IsIdle (store host) (store-IsAttached host) host-IsRegistered

abbrev guest : Client
guest = record client { running = true; connection = some 5; session = some 1 }

client_survives_example :
    (emit_each (slots (λ x c. some c) 5 9) (error 4 ∷ closed ∷ []) (store guest)
      >>= emit_shared (closing (slots (λ x c. some c) 5 9)) received)
    ≡ some (record (store guest) {
      world = record {
        is_open = false;
        registry = told 9 ((error 4 ∷ closed ∷ []) ++ received ∷ closed ∷ []) guest;
        kept = 0;
        passed = 0;
      };
    })
client_survives_example =
    client_survives (λ x c. some c) 5 9 (λ x c. refl) (error 4 ∷ closed ∷ []) (store guest)
      (store-IsAttached guest) refl

admit-fates_example :
    Option.map
      (custody 9)
      (admit idle 9 3 new >>= life idle 9 (gets ∷ copies ∷ leaves ∷ fails 104 ∷ drops ∷ []))
    ≡ some (record { listed = false; copies_kept = 0 })
admit-fates_example =
    admit-fates idle 9 3 idle-IsIdle (λ s. refl) (gets ∷ copies ∷ leaves ∷ fails 104 ∷ drops ∷ [])
      new new-IsNew host-IsRegistered (omega arith)

admit_ends_example :
    (admit idle 9 3 new >>= life idle 9 ((gets ∷ fails 104 ∷ []) ++ quits ∷ gets ∷ [])) ≡ none
admit_ends_example =
    admit_ends idle 9 3 idle-IsIdle (λ s. refl) (gets ∷ fails 104 ∷ []) (gets ∷ []) quits new
      (tt, (tt, tt)) tt new-IsNew host-IsRegistered (omega arith)
