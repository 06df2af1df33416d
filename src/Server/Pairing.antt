-- ===== src/Server/Pairing.antt =====
-- The map of sessions of a server (server.cpp) in any order of the steps of its threads.
use lnetlib.Base.{
  ℕ, ◌≡◌, ap, ◌∙◌, false, List, [], ◌∷◌, ◌++◌, map, some, some_inj, arith, Bool-cases, inl, inr,
}
use lnetlib.Connection.Receiving.{erase}
use lnetlib.Server.State.{Server}
use lnetlib.Server.Accepting.{remove, remove_connection}
use lnetlib.Server.Events.{NotIn}
use lnetlib.Server.Roster.{keys-insert, keys-erase}
use lnetlib.Server.Threads.{
  Adding, made, hooked, inside, added, enter, leave, report, Threads, report_if, Step, hooks,
  enters, leaves, closes, removes, Reach, here, next, count, listed,
}
use lnetlib.Server.Interleaving.{Inv, Reach-Inv}

count-NotIn : (c : ℕ) (cs : List ℕ) → count c cs ≡ 0 → NotIn c cs
count-NotIn c [] h = tt
count-NotIn c (d ∷ ds) h = ground (arith, count-NotIn c ds)

-- Each connection in the list has a session, and no other has one.
abbrev pub IsPaired : Server → Type 0
IsPaired s = map (λ r. r.0) s.sessions ≡ s.connections

report_if-IsPaired : (a : Adding) (c : ℕ) (s : Server) → IsPaired s → IsPaired (report_if a c s)
unfolding report
report_if-IsPaired made c s h = h
report_if-IsPaired hooked c s h = h
report_if-IsPaired inside c s h = h
report_if-IsPaired added c s h = h

remove_connection-IsPaired :
    (c : ℕ) (s s' : Server) → remove_connection c s ≡ some s' → IsPaired s → IsPaired s'
unfolding remove_connection
remove_connection-IsPaired c s s' done h = elim (Bool-cases s.locked) [
  | inl e ↦ cc (rw e at done)
  | inr e ↦
      let left : Server = record s {
        locked = false;
        connections = remove c s.connections;
        sessions = erase c s.sessions;
      } in
      let same : left ≡ s' = some_inj (rw e at done) in
      rw (← same) (keys-erase c s.sessions ∙ ap (remove c) h)
]

Step-IsPaired : {v w : Threads} → Step v w → Inv v → IsPaired v.host → IsPaired w.host
unfolding enter leave
Step-IsPaired (hooks c h) i p = p
Step-IsPaired {v} (enters c session h free) i p =
    let absent : count c v.host.connections ≡ 0 =
      (i.local c).counted ∙ ap (λ a. listed a (v.closing c)) h in
    keys-insert c session v.host.sessions (rw p (count-NotIn c v.host.connections absent))
    ∙ ap (λ cs. cs ++ c ∷ []) p
Step-IsPaired (leaves c h) i p = p
Step-IsPaired {v} (closes c h) i p = report_if-IsPaired (v.adding c) c v.host p
Step-IsPaired {v} (removes c s h done) i p = remove_connection-IsPaired c v.host s done p

pub Reach-IsPaired : {v w : Threads} → Reach v w → Inv v → IsPaired v.host → IsPaired w.host
Reach-IsPaired here i p = p
Reach-IsPaired (next r st) i p = Step-IsPaired st (Reach-Inv r i) (Reach-IsPaired r i p)
