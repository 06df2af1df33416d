-- ===== src/Server/Interleaving.antt =====
-- What each step of the threads of a server (server.cpp) keeps.
use lnetlib.Base.{ℕ, suc, ◌-◌, ◌≡◌, ◌≢◌, refl, sym, ap, ◌∙◌, true, false, some}
use lnetlib.Server.State.{Server, Program}
use lnetlib.Server.Accepting.{remove_connection, add_connection}
use lnetlib.Server.Threads.{
  Adding, made, hooked, inside, added, Closing, up, reporting, removed, enter, leave, Threads,
  update, found, heard, report_if, Step, hooks, enters, leaves, closes, removes, Reach, here, next,
  idle, count, listed,
}
use lnetlib.Server.Phases.{
  count-append_self, count-append_other, count-remove_self, count-remove_other, in_list,
  update_cases, inside_added, inside_one, report_if-same, listed-heard, heard_not_removed,
  heard_slot, listed-found, found-in_list, found_not_reporting, remove_connection_lem,
}

-- A step run after the other, the two halves are add_connection.
pub add_connection-enter :
    (p : Program) (c session : ℕ) (s : Server)
    → ((d : ℕ) (t : Server) → p.on_connected d t ≡ some t)
    → s.locked ≡ false
    → add_connection p c session s ≡ some (leave (enter c session s))
unfolding add_connection enter leave
add_connection-enter p c session s quiet free = rw (free, quiet)

-- What holds of one connection, by the two phases of its threads.
pub record Local (s : Server) (c : ℕ) (a : Adding) (x : Closing) : Type 0 where
  pub counted : count c s.connections ≡ listed a x
  pub held : a ≡ inside → s.locked ≡ true
  pub entered : x ≡ removed → in_list a ≡ true
  pub slotted : x ≡ reporting → a ≢ made

pub record Inv (w : Threads) : Type 0 where
  pub local : (c : ℕ) → Local w.host c (w.adding c) (w.closing c)
  pub alone : (c d : ℕ) → w.adding c ≡ inside → w.adding d ≡ inside → c ≡ d

pub idle-Inv : (s : Server) → Inv (idle s)
idle-Inv s = record {
  local = λ c. record { counted = refl; held = λ h. cc; entered = λ h. cc; slotted = λ h. cc };
  alone = λ c d h k. cc;
}

pub hooks-Inv :
    (w : Threads) (c : ℕ)
    → w.adding c ≡ made
    → Inv w
    → Inv (record w { adding = update w.adding c hooked })
hooks-Inv w c fresh i =
    let before : (d : ℕ) → update w.adding c hooked d ≡ inside → w.adding d ≡ inside =
      update_cases (λ d a. a ≡ inside → w.adding d ≡ inside) w.adding c hooked (λ h. cc)
        (λ d ne h. h) in
    let l = i.local c in
    record {
      local =
          update_cases (λ d a. Local w.host d a (w.closing d)) w.adding c hooked
            (record {
              counted = l.counted ∙ ap (λ a. listed a (w.closing c)) fresh;
              held = λ h. cc;
              entered = λ h. let e = l.entered h in cc;
              slotted = λ h. λ k. l.slotted h fresh;
            })
            (λ d ne. i.local d);
      alone = λ d e h k. i.alone d e (before d h) (before e k);
    }

pub enters-Inv :
    (w : Threads) (c session : ℕ)
    → w.adding c ≡ hooked
    → w.host.locked ≡ false
    → Inv w
    → Inv (record w { host = enter c session w.host; adding = update w.adding c inside })
unfolding enter
enters-Inv w c session waits free i =
    let nobody : (d : ℕ) → w.adding d ≡ inside → ⊥ = λ d h. let k = (i.local d).held h in cc in
    let only : (d : ℕ) → update w.adding c inside d ≡ inside → d ≡ c =
      update_cases (λ d a. a ≡ inside → d ≡ c) w.adding c inside (λ h. refl)
        (λ d ne h. absurd (nobody d h)) in
    let l = i.local c in
    let kept : w.closing c ≢ removed = λ h. let k = l.entered h in cc in
    record {
      local =
          update_cases (λ d a. Local (enter c session w.host) d a (w.closing d)) w.adding c inside
            (record {
              counted =
                  count-append_self c w.host.connections
                  ∙ ap suc (l.counted ∙ ap (λ a. listed a (w.closing c)) waits)
                  ∙ sym (inside_one (w.closing c) kept);
              held = λ h. refl;
              entered = λ h. refl;
              slotted = λ h k. cc;
            })
            (λ d ne.
              let m = i.local d in
              record {
                counted = count-append_other d c w.host.connections ne ∙ m.counted;
                held = λ h. refl;
                entered = m.entered;
                slotted = m.slotted;
              });
      alone = λ d e h k. only d h ∙ sym (only e k);
    }

pub leaves-Inv :
    (w : Threads) (c : ℕ)
    → w.adding c ≡ inside
    → Inv w
    → Inv (record w { host = leave w.host; adding = update w.adding c added })
unfolding leave
leaves-Inv w c within i =
    let nobody : (d : ℕ) → update w.adding c added d ≡ inside → ⊥ =
      update_cases (λ d a. a ≡ inside → ⊥) w.adding c added (λ h. cc)
        (λ d ne h. ne (i.alone d c h within)) in
    let l = i.local c in
    record {
      local =
          update_cases (λ d a. Local (leave w.host) d a (w.closing d)) w.adding c added
            (record {
              counted =
                  l.counted ∙ ap (λ a. listed a (w.closing c)) within ∙ inside_added (w.closing c);
              held = λ h. cc;
              entered = λ h. refl;
              slotted = λ h k. cc;
            })
            (λ d ne.
              let m = i.local d in
              record {
                counted = m.counted;
                held = λ h. absurd (ne (i.alone d c h within));
                entered = m.entered;
                slotted = m.slotted;
              });
      alone = λ d e h k. absurd (nobody d h);
    }

pub closes-Inv :
    (w : Threads) (c : ℕ)
    → w.closing c ≡ up
    → Inv w
    → Inv (record w {
      host = report_if (w.adding c) c w.host;
      closing = update w.closing c (heard (w.adding c));
    })
closes-Inv w c opened i =
    let (cs, lock) = report_if-same (w.adding c) c w.host in
    let l = i.local c in
    record {
      local =
          update_cases (λ d x. Local (report_if (w.adding c) c w.host) d (w.adding d) x) w.closing c
            (heard (w.adding c))
            (record {
              counted =
                  ap (count c) cs
                  ∙ l.counted
                  ∙ ap (listed (w.adding c)) opened
                  ∙ listed-heard (w.adding c);
              held = λ h. lock ∙ l.held h;
              entered = λ h. absurd (heard_not_removed (w.adding c) h);
              slotted = λ h k. heard_slot (w.adding c) h k;
            })
            (λ d ne.
              let m = i.local d in
              record {
                counted = ap (count d) cs ∙ m.counted;
                held = λ h. lock ∙ m.held h;
                entered = m.entered;
                slotted = m.slotted;
              });
      alone = i.alone;
    }

pub removes-Inv :
    (w : Threads) (c : ℕ) (s : Server)
    → w.closing c ≡ reporting
    → remove_connection c w.host ≡ some s
    → Inv w
    → Inv (record w { host = s; closing = update w.closing c (found (w.adding c)) })
removes-Inv w c s waits done i =
    let (free, cs, lock) = remove_connection_lem c w.host s done in
    let l = i.local c in
    let slot = l.slotted waits in
    record {
      local =
          update_cases (λ d x. Local s d (w.adding d) x) w.closing c (found (w.adding c))
            (record {
              counted =
                  ap (count c) cs
                  ∙ count-remove_self c w.host.connections
                  ∙ ap (λ n. n - 1) (l.counted ∙ ap (listed (w.adding c)) waits)
                  ∙ listed-found (w.adding c);
              held = λ h. let k = l.held h in cc;
              entered = λ h. found-in_list (w.adding c) h;
              slotted = λ h k. absurd (found_not_reporting (w.adding c) h);
            })
            (λ d ne.
              let m = i.local d in
              record {
                counted =
                    ap (count d) cs ∙ count-remove_other d c w.host.connections ne ∙ m.counted;
                held = λ h. let k = m.held h in cc;
                entered = m.entered;
                slotted = m.slotted;
              });
      alone = i.alone;
    }

Step-Inv : {v w : Threads} → Step v w → Inv v → Inv w
Step-Inv {v} (hooks c h) i = hooks-Inv v c h i
Step-Inv {v} (enters c session h free) i = enters-Inv v c session h free i
Step-Inv {v} (leaves c h) i = leaves-Inv v c h i
Step-Inv {v} (closes c h) i = closes-Inv v c h i
Step-Inv {v} (removes c s h done) i = removes-Inv v c s h done i

pub Reach-Inv : {v w : Threads} → Reach v w → Inv v → Inv w
Reach-Inv here i = i
Reach-Inv (next r st) i = Step-Inv st (Reach-Inv r i)
