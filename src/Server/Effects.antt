-- ===== src/Server/Effects.antt =====
-- What the program's slots may do, and how often a server has started sessions and threads
-- (server.cpp).
use lnetlib.Base.{ℕ, ◌+◌, ◌≡◌, List, [], ◌∷◌, ◌++◌, Option, some, arith}
use lnetlib.Bytes.{ℤ}
use lnetlib.Server.State.{Effect, session_started, thread_started, Server, Program}

abbrev pub is_session : Effect → ℕ
is_session (session_started k) = 1
is_session _ = 0

abbrev pub is_thread : Effect → ℕ
is_thread thread_started = 1
is_thread _ = 0

-- How many effects are such.
abbrev pub tally : (Effect → ℕ) → List Effect → ℕ
tally f [] = 0
tally f (x ∷ xs) = f x + tally f xs

pub tally-append :
    (f : Effect → ℕ) (xs ys : List Effect) → tally f (xs ++ ys) ≡ tally f xs + tally f ys
tally-append f [] ys = omega arith
tally-append f (x ∷ xs) ys = omega (arith, tally-append f xs ys)

abbrev pub started : Server → ℕ
started s = tally is_session s.trace

abbrev pub threads : Server → ℕ
threads s = tally is_thread s.trace

-- What a slot leaves alone.
pub record Same (s s' : Server) : Type 0 where
  pub connections : s'.connections ≡ s.connections
  pub sessions : s'.sessions ≡ s.sessions
  pub locked : s'.locked ≡ s.locked
  pub policy : s'.thread_policy ≡ s.thread_policy
  pub started_same : started s' ≡ started s
  pub threads_same : threads s' ≡ threads s

abbrev pub Returns : Server → Option Server → Type 0
Returns s r = (s' : Server) × (r ≡ some s') × Same s s'

-- The program's slots return, and neither start sessions nor threads nor touch the connections;
-- they may stop the server.
pub record IsPolite (p : Program) : Type 0 where
  pub connected_polite : (conn : ℕ) (s : Server) → Returns s (p.on_connected conn s)
  pub disconnected_polite : (conn : ℕ) (s : Server) → Returns s (p.on_disconnected conn s)
  pub error_polite : (conn : Option ℕ) (code : ℤ) (s : Server) → Returns s (p.on_error conn code s)
  pub received_polite : (conn : ℕ) (s : Server) → Returns s (p.on_received conn s)
