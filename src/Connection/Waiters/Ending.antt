-- ===== src/Connection/Waiters/Ending.antt =====
-- How a connection ends: the stop channel is closed once, and a loop that has ended leaves no
-- reply channel open.
use kafka_api.Common.{ℕ, ◌+◌, ◌<◌, ◌≡◌, ◌≢◌, refl, ap, sym, arith, subst, Option, none, some, []}
use kafka_api.Common.Int.{ℤ}
use kafka_api.Flow.{err}
use kafka_api.Proto.Errors.{GoError}
use kafka_api.Connection.Waiters.{
  Connection, ConnectionError, Loop, reading, returning, ended, new_connection, find_waiter,
  waiting, resp_waiter, new_waiter, stopped_or, release, release_waiter, stop_with,
  close_connection, received, take_waiter, read_failed, delivered, abandoned, close_reply,
  close_waiting,
}
use kafka_api.Connection.Waiters.Steps.{
  Step, waits, releases, closes, reads, fails, delivers, abandons, closes_reply, returns, Reach,
  start, later, count, held,
}
use kafka_api.Connection.Waiters.Channels.{reply_channel_once}

-- how often the stop channel was closed, by the error that is kept
abbrev pub stop_count : Option ConnectionError → ℕ
stop_count none = 0
stop_count (some e) = 1

-- A loop on its way out has left an error, and one that has ended has left no waiter.
abbrev QuietAt : Connection → Loop → Type 0
QuietAt c returning = stop_count c.stop_err ≡ 1
QuietAt c ended = (stop_count c.stop_err ≡ 1) × (c.respc ≡ [])
QuietAt c _ = Unit {0}

record IsQuiet (c : Connection) : Type 0 where
  stops : c.stops ≡ stop_count c.stop_err
  quiet : QuietAt c c.loop

resp_waiter-IsQuiet : (id : ℤ) (c : Connection) → IsQuiet c → IsQuiet (resp_waiter id c).1
unfolding resp_waiter stopped_or new_waiter
resp_waiter-IsQuiet id c h = ground arith

release_waiter-IsQuiet : (id : ℤ) (c : Connection) → IsQuiet c → IsQuiet (release_waiter id c)
unfolding release_waiter release find_waiter
release_waiter-IsQuiet id c h = ground arith

close_connection-IsQuiet : (c : Connection) → IsQuiet c → IsQuiet (close_connection c)
unfolding close_connection stop_with
close_connection-IsQuiet c h = ground arith

received-IsQuiet :
    (id : ℤ) (c : Connection) → c.loop ≡ reading → IsQuiet c → IsQuiet (received id c)
unfolding received take_waiter
received-IsQuiet id c r h = ground arith

read_failed-IsQuiet :
    (e : GoError) (c : Connection) → c.loop ≡ reading → IsQuiet c → IsQuiet (read_failed e c)
unfolding read_failed stop_with
read_failed-IsQuiet e c r h = ground arith

abandoned-IsQuiet : (ch : ℕ) (c : Connection) → c.stops ≢ 0 → IsQuiet c → IsQuiet (abandoned ch c)
unfolding abandoned
abandoned-IsQuiet ch c n h = ground arith

close_waiting-IsQuiet :
    (c : Connection) → c.loop ≡ returning → IsQuiet c → IsQuiet (close_waiting c)
unfolding close_waiting
close_waiting-IsQuiet c r h = ground arith

Step-IsQuiet : {c d : Connection} → Step c d → IsQuiet c → IsQuiet d
unfolding delivered close_reply
Step-IsQuiet {c} (waits id e) h = subst IsQuiet (sym e) (resp_waiter-IsQuiet id c h)
Step-IsQuiet {c} (releases id e) h = subst IsQuiet (sym e) (release_waiter-IsQuiet id c h)
Step-IsQuiet {c} (closes e) h = subst IsQuiet (sym e) (close_connection-IsQuiet c h)
Step-IsQuiet {c} (reads id r e) h = subst IsQuiet (sym e) (received-IsQuiet id c r h)
Step-IsQuiet {c} (fails x r e) h = subst IsQuiet (sym e) (read_failed-IsQuiet x c r h)
Step-IsQuiet {c} (delivers ch r e) h =
    subst IsQuiet (sym e) (record { stops = h.stops; quiet = tt })
Step-IsQuiet {c} (abandons ch r n e) h = subst IsQuiet (sym e) (abandoned-IsQuiet ch c n h)
Step-IsQuiet {c} (closes_reply ch r e) h =
    subst IsQuiet (sym e) (record { stops = h.stops; quiet = tt })
Step-IsQuiet {c} (returns r e) h = subst IsQuiet (sym e) (close_waiting-IsQuiet c r h)

start-IsQuiet : IsQuiet new_connection
unfolding new_connection
start-IsQuiet = record { stops = refl; quiet = tt }

Reach-IsQuiet : {c : Connection} → Reach c → IsQuiet c
Reach-IsQuiet (start e) = subst IsQuiet (sym e) start-IsQuiet
Reach-IsQuiet (later r st) = Step-IsQuiet st (Reach-IsQuiet r)

-- However the goroutines of a connection interleave, its stop channel was closed once if an error
-- is kept, and else not at all: a second close, which would panic, never happens.
pub stop_closed_once : {c : Connection} → Reach c → c.stops ≡ stop_count c.stop_err
stop_closed_once r = (Reach-IsQuiet r).stops

resp_waiter-stopped :
    (id : ℤ) (c : Connection) (s : Option ConnectionError)
    → c.stop_err ≡ s
    → stop_count s ≡ 1
    → (e : ConnectionError) × (resp_waiter id c ≡ (err e, c))
unfolding resp_waiter stopped_or
resp_waiter-stopped id c none e h = absurd (omega arith)
resp_waiter-stopped id c (some x) e h = (x, rw e refl)

ended-count :
    (c : Connection) (ch : ℕ)
    → c.respc ≡ []
    → c.loop ≡ ended
    → count ch (waiting c.respc) + held ch c.loop + count ch c.closed ≡ 1
    → count ch c.closed ≡ 1
unfolding held count
ended-count c ch empty l h = omega (arith, ap (λ m. count ch (waiting m)) empty, ap (held ch) l, h)

-- Once the loop of a connection has ended, every reply channel that was ever made is closed, once.
pub ended-closed :
    {c : Connection} (ch : ℕ) → Reach c → c.loop ≡ ended → ch < c.channels → count ch c.closed ≡ 1
ended-closed {c} ch r l h =
    let (stopped, empty) = subst (QuietAt c) l (Reach-IsQuiet r).quiet in
    ended-count c ch empty l (reply_channel_once ch r h)

-- Once the loop of a connection has ended, respWaiter refuses every later request that asks it for a
-- reply channel, and changes nothing, whether or not a channel was ever made.
pub ended-refuses :
    {c : Connection} (id : ℤ)
    → Reach c
    → c.loop ≡ ended
    → (e : ConnectionError) × (resp_waiter id c ≡ (err e, c))
ended-refuses {c} id r l =
    let (stopped, empty) = subst (QuietAt c) l (Reach-IsQuiet r).quiet in
    resp_waiter-stopped id c c.stop_err refl stopped
