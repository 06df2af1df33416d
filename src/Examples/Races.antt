-- ===== src/Examples/Races.antt =====
-- The theorems on the threads of a server at a concrete run.
use lnetlib.Base.{ℕ, ◌≡◌, ◌≢◌, refl, false}
use lnetlib.Server.State.{server}
use lnetlib.Server.Accepting.{remove, remove_connection}
use lnetlib.Connection.Receiving.{erase}
use lnetlib.Server.Threads.{
  made, hooked, inside, added, reporting, missed, enter, leave, report, Threads, update, hooks,
  enters, leaves, closes, removes, Reach, here, next, idle, count, listed,
}
use lnetlib.Server.Pairing.{IsPaired}
use lnetlib.Server.Races.{Reach-listed}

-- Client 7 leaves as soon as its slots are connected, and the slot runs before add_connection goes
-- on.
abbrev left_early : Threads
left_early = record {
  host = leave (enter 7 1 (report 7 (idle server).host));
  adding = update (update (update (λ c. made) 7 hooked) 7 inside) 7 added;
  closing = update (update (idle server).closing 7 reporting) 7 missed;
}

early_run : Reach (idle server) left_early
unfolding server enter leave report remove_connection remove erase
early_run =
    next
      (next (next (next (next here (hooks 7 refl)) (closes 7 refl)) (removes 7 _ refl refl))
        (enters 7 1 refl refl))
      (leaves 7 refl)

-- Then client 8 comes.
abbrev and_another : Threads
and_another = record left_early { adding = update left_early.adding 8 hooked }

Reach-listed_example :
    ((c : ℕ)
      → count c left_early.host.connections ≡ listed (left_early.adding c) (left_early.closing c))
    × IsPaired left_early.host
    × ((c : ℕ) → left_early.host.locked ≡ false → left_early.adding c ≢ inside)
    × ((c d : ℕ) → left_early.adding c ≡ inside → left_early.adding d ≡ inside → c ≡ d)
Reach-listed_example = Reach-listed server left_early early_run
