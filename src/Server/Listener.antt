-- ===== src/Server/Listener.antt =====
-- Whether a server (server.cpp) still waits for a client, and its threads.
use lnetlib.Base.{ℕ, ◌+◌, ◌≤◌, ◌≡◌, ◌≢◌, refl, sym, ◌∙◌, some, arith}
use lnetlib.Server.State.{Server, Program, one_per_connection}
use lnetlib.Server.Effects.{started, threads, IsPolite}
use lnetlib.Server.Events.{Event, handle}
use lnetlib.Server.Counting.{finishes, fails, fails-le, handle-Counted}

-- A server with the number of its sessions that have got a connection or failed, and of those that
-- have failed.
pub record Listener : Type 0 where
  pub host : Server
  pub finished : ℕ
  pub failures : ℕ

-- A session can get a connection or fail only if it has been started and has done neither.
pub data Step (p : Program) (l : Listener) : Listener → Type 0 where
  step :
      (x : Event) (s : Server)
      → l.finished + finishes x ≤ started l.host
      → handle p x l.host ≡ some s
      → Step p l
          (record { host = s; finished = l.finished + finishes x; failures = l.failures + fails x })

pub data Reach (p : Program) (l : Listener) : Listener → Type 0 where
  here : Reach p l l
  next : {m n : Listener} → Reach p l m → Step p m n → Reach p l n

-- Every session that has finished, but for one that failed, was followed by a new one; and with a
-- thread for each connection, so was its thread.
pub record IsListening (l : Listener) : Type 0 where
  pub sane : l.finished ≤ started l.host
  pub waiting : started l.host + l.failures ≡ l.finished + 1
  pub served : l.host.thread_policy ≡ one_per_connection → threads l.host ≡ started l.host

module _ (p : Program) (polite : IsPolite p) where
  Step-IsListening : {l m : Listener} → Step p l m → IsListening l → IsListening m
  Step-IsListening {l} (step x s fits h) v =
      let c = handle-Counted p polite x l.host s h in
      record {
        sane = omega (arith, c.sessions, fails-le x);
        waiting = omega (arith, v.waiting, c.sessions);
        served = λ one.
            let before : l.host.thread_policy ≡ one_per_connection = sym c.policy ∙ one in
            omega (arith, c.fair before, v.served before);
      }

  pub Reach-IsListening : {l m : Listener} → IsListening l → Reach p l m → IsListening m
  Reach-IsListening v here = v
  Reach-IsListening v (next r s) = Step-IsListening s (Reach-IsListening v r)

  -- Whatever happens to a listening server, by any events in any order, while no session has failed
  -- exactly one session waits for the next client. The program's slots must return, start neither
  -- sessions nor threads, and leave the connections alone.
  pub Reach_waiting :
      (l m : Listener)
      → IsListening l
      → Reach p l m
      → m.failures ≡ 0
      → started m.host ≡ m.finished + 1
  Reach_waiting l m v r none_failed = let w = Reach-IsListening v r in omega (arith, w.waiting)

  -- Whatever happens to a listening server that has a thread for each connection, it has started as
  -- many threads as sessions, also when sessions have failed. The program's slots must return,
  -- start neither sessions nor threads, and leave the connections alone.
  pub Reach_threads :
      (l m : Listener)
      → IsListening l
      → Reach p l m
      → m.host.thread_policy ≡ one_per_connection
      → threads m.host ≡ started m.host
  Reach_threads l m v r one = (Reach-IsListening v r).served one

  -- One session that has failed, in its accept or in its handshake, leaves a listening server deaf:
  -- whatever happens, no session is started any more, and none waits that could get a connection or
  -- fail. The program's slots must return, start neither sessions nor threads, and leave the
  -- connections alone.
  pub Reach_deaf :
      (l m : Listener)
      → IsListening l
      → l.failures ≢ 0
      → Reach p l m
      → (started m.host ≡ started l.host)
        × (m.finished ≡ l.finished)
        × (m.finished ≡ started m.host)
  Reach_deaf l m v broken r = go r
    where
      go :
          {k : Listener}
          → Reach p l k
          → (started k.host ≡ started l.host)
            × (k.finished ≡ l.finished)
            × (k.finished ≡ started k.host)
      go here = (refl, refl, omega (arith, v.waiting, v.sane))
      go {k} (next {m = n} q (step x s fits h)) =
          let (a, b, c) = go q in
          let counts = handle-Counted p polite x n.host s h in
          (
            omega (arith, a, b, c, counts.sessions, fails-le x),
            omega (arith, a, b, c, counts.sessions, fails-le x),
            omega (arith, a, b, c, counts.sessions, fails-le x),
          )
