-- ===== src/Client/Owners.antt =====
-- A client owns its connection (client.cpp): it keeps the pointer when the connection closes.
use mathlib.Core.List.{map-append}
use lnetlib.Base.{
  ℕ, ◌+◌, ◌≡◌, refl, false, List, [], ◌∷◌, ◌++◌, map, append-nil, append_assoc, Option, none, some,
  ◌>>=◌, arith, ◌==◌, ==_self, if◌then◌else◌,
}
use lnetlib.Bytes.{pos}
use lnetlib.Signal.State.{Store}
use lnetlib.Connection.Owners.{
  Emission, closed, error, received, Shared, Slots, with_registry, emit_shared, emit_each,
}
use lnetlib.Connection.Attaching.{IsAttached, same_signals}
use lnetlib.Connection.Lifespan.{heard, emit_shared-heard}
use lnetlib.Connection.Shutting.{closing, emit_shared-closing}
use lnetlib.Client.State
use lnetlib.Client.State.{Client, Program, Signal, emitted, record_effect, emit}
use lnetlib.Client.Connecting.{closed_slot, error_slot, received_slot}

abbrev pub count : ℕ → Option ℕ → ℕ
count conn none = 0
count conn (some c) = if c == conn then 1 else 0

-- The client as the owner of its connection, which gives it a message as the stream `stream`.
unfoldable pub client_slots :
    Program → ℕ → ℕ → (Store (Shared Client) → Option (Store (Shared Client))) → Slots Client
client_slots p conn stream act = record {
  owners = λ c. count conn c.connection;
  on_closed = closed_slot p;
  on_error = error_slot p;
  on_received = received_slot p stream;
  act = act;
}

-- The signal of the client for an emission of its connection.
abbrev pub passed_on : ℕ → Emission → Signal
passed_on stream closed = State.disconnected
passed_on stream (error code) = State.error (pos code)
passed_on stream received = State.received stream

abbrev pub slots : Program → ℕ → ℕ → Slots Client
slots p conn stream = client_slots p conn stream some

-- The client after emissions of its connection.
abbrev pub told : ℕ → List Emission → Client → Client
told stream es c = record c { trace = c.trace ++ map (λ e. emitted (passed_on stream e)) es }

module _ (p : Program) (conn stream : ℕ) (idle : (x : Signal) (c : Client) → p x c ≡ some c) where
  heard_lem :
      (e : Emission) (c : Client)
      → heard (slots p conn stream) e c ≡ some (record_effect (emitted (passed_on stream e)) c)
  unfolding client_slots closed_slot error_slot received_slot emit
  heard_lem closed c = idle _ _
  heard_lem (error code) c = idle _ _
  heard_lem received c = idle _ _

  own_kept :
      (n : ℕ) (c : Client) → c.connection ≡ some conn → (n + count conn c.connection == 0) ≡ false
  own_kept n c own = rw (own, ==_self conn) (ground arith)

  emit_own :
      (e : Emission) (m : Store (Shared Client))
      → IsAttached m
      → m.world.registry.connection ≡ some conn
      → emit_shared (slots p conn stream) e m
        ≡ some (with_registry (record_effect (emitted (passed_on stream e)) m.world.registry) m)
  unfolding client_slots
  emit_own e m a own =
      rw
        (
          emit_shared-heard (slots p conn stream) e m a (λ n. refl),
          heard_lem e m.world.registry,
          own_kept (m.world.kept + m.world.passed) m.world.registry own,
        )
        refl

  closed_own :
      (m : Store (Shared Client))
      → IsAttached m
      → m.world.registry.connection ≡ some conn
      → emit_shared (closing (slots p conn stream)) received m
        ≡ some (record m {
          world = record m.world {
            is_open = false;
            registry =
                record_effect
                  (emitted State.disconnected)
                  (record_effect (emitted (State.received stream)) m.world.registry);
          };
        })
  unfolding client_slots
  closed_own m a own =
      let first : received_slot p stream m.world.registry
          ≡ some (record_effect (emitted (State.received stream)) m.world.registry) =
        heard_lem received m.world.registry in
      rw
        (
          emit_shared-closing (slots p conn stream) m a,
          first,
          heard_lem closed (record_effect (emitted (State.received stream)) m.world.registry),
          own_kept (m.world.kept + m.world.passed) m.world.registry own,
        )
        refl

  emit_each_own :
      (es : List Emission) (m : Store (Shared Client))
      → IsAttached m
      → m.world.registry.connection ≡ some conn
      → emit_each (slots p conn stream) es m
        ≡ some (with_registry (told stream es m.world.registry) m)
  emit_each_own [] m a own = rw append-nil refl
  emit_each_own (e ∷ es) m a own =
      let c = record_effect (emitted (passed_on stream e)) m.world.registry in
      rw (emit_own e m a own, emit_each_own es (with_registry c m) (same_signals m _ a) own)
        (simp append_assoc)

  -- Any emissions of the connection that a client keeps, also `closed`, and then a message whose
  -- slot closes the connection: the client emits a signal for each in their order, the mutexes of
  -- the connection's signals are given back, and its socket is closed. The client's (slots p conn
  -- stream) do nothing.
  pub client_survives :
      (es : List Emission) (m : Store (Shared Client))
      → IsAttached m
      → m.world.registry.connection ≡ some conn
      → (emit_each (slots p conn stream) es m
          >>= emit_shared (closing (slots p conn stream)) received)
        ≡ some (record m {
          world = record m.world {
            is_open = false;
            registry = told stream (es ++ received ∷ closed ∷ []) m.world.registry;
          };
        })
  client_survives es m a own =
      rw
        (
          emit_each_own es m a own,
          closed_own (with_registry (told stream es m.world.registry) m) (same_signals m _ a) own,
        )
        (simp (map-append, append_assoc))
