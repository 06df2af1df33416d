-- ===== src/Server/Races.antt =====
-- What the threads of a server (server.cpp) come to, in any order of their steps.
use lnetlib.Base.{ℕ, ◌≡◌, ◌≢◌, refl, Bool, true, false}
use lnetlib.Server.State.{Server}
use lnetlib.Server.Threads.{
  inside, added, Closing, unheard, missed, Threads, Reach, idle, count, listed,
}
use lnetlib.Server.Pairing.{IsPaired, Reach-IsPaired}
use lnetlib.Server.Interleaving.{idle-Inv, Reach-Inv}

-- In whatever order the threads of any number of clients take their steps, on a server that began
-- with none: a connection stands in the list once if its add_connection has put it there and no
-- slot for `closed` has removed it since, and else not at all; those in the list are those that
-- have a session in the map, in the same order; while the mutex is free no thread is between the
-- two ends of add_connection, and never are two.
pub Reach-listed :
    (s : Server) (w : Threads)
    → Reach (idle s) w
    → ((c : ℕ) → count c w.host.connections ≡ listed (w.adding c) (w.closing c))
      × IsPaired w.host
      × ((c : ℕ) → w.host.locked ≡ false → w.adding c ≢ inside)
      × ((c d : ℕ) → w.adding c ≡ inside → w.adding d ≡ inside → c ≡ d)
Reach-listed s w r =
    let i = Reach-Inv r (idle-Inv s) in
    (
      λ c. (i.local c).counted,
      Reach-IsPaired r (idle-Inv s) refl,
      λ c free h. let k = (i.local c).held h in cc,
      i.alone,
    )

-- The connection has closed, and no slot that could remove it is left.
abbrev pub lost : Closing → Bool
lost unheard = true
lost missed = true
lost _ = false

record Lost (c : ℕ) (w : Threads) : Type 0 where
  over : w.adding c ≡ added
  gone : lost (w.closing c) ≡ true
