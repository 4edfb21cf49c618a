-- ===== src/Connection/Waiters/Channels.antt =====
-- Every reply channel of a connection is in one place: it waits, is held by the loop, or was closed.
use kafka_api.Common.{
  ℕ, ◌+◌, ◌<◌, ◌≡◌, refl, sym, arith, subst, ltb, ◌==◌, Option, none, some, List, [], ◌∷◌, ◌++◌,
  if◌then◌else◌,
}
use kafka_api.Common.Int.{ℤ}
use kafka_api.Proto.Errors.{GoError}
use kafka_api.Connection.Waiters.{
  Connection, ConnectionError, err_closed, Loop, reading, delivering, closing, returning,
  new_connection, find_waiter, delete_waiter, waiting, resp_waiter, new_waiter, stopped_or, release,
  release_waiter, stop_with, close_connection, received, take_waiter, read_failed, delivered,
  abandoned, close_reply, close_waiting,
}
use kafka_api.Connection.Waiters.Steps.{
  Step, waits, releases, closes, reads, fails, delivers, abandons, closes_reply, returns, Reach,
  start, later, count, held,
}

-- Each channel that was made is waited for, or with the loop, or closed: one of these, and once.
abbrev CountedAt : Connection → Loop → Type 0
CountedAt c loop =
    (x : ℕ)
    → count x (waiting c.respc) + held x loop + count x c.closed
      ≡ (if ltb x c.channels then 1 else 0)

abbrev Counted : Connection → Type 0
Counted c = CountedAt c c.loop

count-append : (x : ℕ) (xs ys : List ℕ) → count x (xs ++ ys) ≡ count x xs + count x ys
unfolding count
count-append x [] ys = omega arith
count-append x (z ∷ zs) ys = omega (arith, count-append x zs ys)

-- what leaves the map
count-delete_waiter :
    (id : ℤ) (m : List (ℤ × ℕ)) (ch x : ℕ)
    → find_waiter id m ≡ some ch
    → count x (waiting m) ≡ (if x == ch then 1 else 0) + count x (waiting (delete_waiter id m))
unfolding find_waiter delete_waiter count
count-delete_waiter id [] ch x e = ground arith
count-delete_waiter id ((k, c) ∷ rest) ch x e = ground (arith, count-delete_waiter id rest ch x)

new_waiter-Counted :
    (id : ℤ) (found : Option ℕ) (c : Connection) → Counted c → Counted (new_waiter id found c).1
unfolding new_waiter count
new_waiter-Counted id (some ch) c h x = h x
new_waiter-Counted id none c h x = ground (arith, h x)

resp_waiter-Counted : (id : ℤ) (c : Connection) → Counted c → Counted (resp_waiter id c).1
unfolding resp_waiter stopped_or
resp_waiter-Counted id c h = elim c.stop_err as (λ e. Counted (stopped_or e id c).1) [
  | some e ↦ h
  | none ↦ new_waiter-Counted id (find_waiter id c.respc) c h
]

release-Counted :
    (id : ℤ) (found : Option ℕ) (c : Connection)
    → find_waiter id c.respc ≡ found
    → Counted c
    → Counted (release id found c)
unfolding release count
release-Counted id none c e h x = h x
release-Counted id (some ch) c e h x = ground (arith, h x, count-delete_waiter id c.respc ch x e)

stop_with-Counted :
    (s : Option ConnectionError) (e : ConnectionError) (c : Connection)
    → Counted c
    → Counted (stop_with s e c)
unfolding stop_with
stop_with-Counted (some x) e c h = h
stop_with-Counted none e c h = h

take_waiter-Counted :
    (id : ℤ) (found : Option ℕ) (c : Connection)
    → find_waiter id c.respc ≡ found
    → c.loop ≡ reading
    → Counted c
    → Counted (take_waiter id found c)
unfolding take_waiter held
take_waiter-Counted id none c e r h x = h x
take_waiter-Counted id (some ch) c e r h x =
    let b = subst (CountedAt c) r h x in omega (arith, b, count-delete_waiter id c.respc ch x e)

close_waiting-Counted :
    (c : Connection) → c.loop ≡ returning → Counted c → Counted (close_waiting c)
unfolding close_waiting held count
close_waiting-Counted c r h x =
    let b = subst (CountedAt c) r h x in omega (arith, b, count-append x (waiting c.respc) c.closed)

close_reply-Counted :
    (ch : ℕ) (c : Connection) → c.loop ≡ closing ch → Counted c → Counted (close_reply ch c)
unfolding close_reply held count
close_reply-Counted ch c r h x = let b = subst (CountedAt c) r h x in omega (arith, b)

read_failed-Counted :
    (e : GoError) (c : Connection) → c.loop ≡ reading → Counted c → Counted (read_failed e c)
unfolding read_failed held stop_with
read_failed-Counted e c r h x = let b = subst (CountedAt c) r h x in ground (arith, b)

delivered-Counted :
    (ch : ℕ) (c : Connection) → c.loop ≡ delivering ch → Counted c → CountedAt c (closing ch)
unfolding held
delivered-Counted ch c r h x = let b = subst (CountedAt c) r h x in omega (arith, b)

start-Counted : Counted new_connection
unfolding new_connection count held
start-Counted x = ground arith

Step-Counted : {c d : Connection} → Step c d → Counted c → Counted d
unfolding release_waiter close_connection received delivered abandoned
Step-Counted {c} (waits id e) h = subst Counted (sym e) (resp_waiter-Counted id c h)
Step-Counted {c} (releases id e) h =
    subst Counted (sym e) (release-Counted id (find_waiter id c.respc) c refl h)
Step-Counted {c} (closes e) h = subst Counted (sym e) (stop_with-Counted c.stop_err err_closed c h)
Step-Counted {c} (reads id r e) h =
    subst Counted (sym e) (take_waiter-Counted id (find_waiter id c.respc) c refl r h)
Step-Counted {c} (fails x r e) h = subst Counted (sym e) (read_failed-Counted x c r h)
Step-Counted {c} (delivers ch r e) h = subst Counted (sym e) (delivered-Counted ch c r h)
Step-Counted {c} (abandons ch r n e) h = subst Counted (sym e) (delivered-Counted ch c r h)
Step-Counted {c} (closes_reply ch r e) h = subst Counted (sym e) (close_reply-Counted ch c r h)
Step-Counted {c} (returns r e) h = subst Counted (sym e) (close_waiting-Counted c r h)

Reach-Counted : {c : Connection} → Reach c → Counted c
Reach-Counted (start e) = subst Counted (sym e) start-Counted
Reach-Counted (later r st) = Step-Counted st (Reach-Counted r)

-- However the goroutines of a connection interleave, each reply channel that was made is either
-- waited for, or in the hands of the loop, or closed: one of these, and once. So none is closed
-- twice, and none is sent on after it was closed.
pub reply_channel_once :
    {c : Connection} (ch : ℕ)
    → Reach c
    → ch < c.channels
    → count ch (waiting c.respc) + held ch c.loop + count ch c.closed ≡ 1
reply_channel_once ch r h = ground (arith, Reach-Counted r ch)
