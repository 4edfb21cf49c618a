-- ===== src/Connection/Waiters.antt =====
-- The shared state of a connection of v2/connection.go: respWaiter, releaseWaiter, Close and the
-- goroutine readRespLoop. A channel is told by the number of channels made before it.
pub mod Steps
pub mod Channels
pub mod Ending
use kafka_api.Common.{
  ℕ, zero, suc, ◌+◌, ◌≡◌, Bool, true, false, Option, none, some, List, [], ◌∷◌, ◌++◌, map,
  if◌then◌else◌,
}
use kafka_api.Common.Int.{ℤ}
use kafka_api.Flow.{Returned, ok, err}
use kafka_api.Proto.Errors.{GoError, eqb}

pub data ConnectionError : Type 0 where
  -- ErrClosed
  err_closed : ConnectionError
  -- fmt.Errorf("correlation conflict: %d", correlationID)
  correlation_conflict : ℤ → ConnectionError
  -- what proto.ReadResp returned
  read_error : GoError → ConnectionError

-- Where the goroutine readRespLoop stands: before or in proto.ReadResp; before the select that
-- sends to rc; before `close(rc)`; returning, before its deferred function; behind it.
pub data Loop : Type 0 where
  reading : Loop
  delivering : ℕ → Loop
  closing : ℕ → Loop
  returning : Loop
  ended : Loop

-- respc maps correlation ids to channels, so no id stands in it twice. `stops` counts how often
-- close(c.stop) ran, and `closed` lists the reply channels for which close ran.
pub record Connection : Type 0 where
  pub stop_err : Option ConnectionError
  pub stops : ℕ
  pub respc : List (ℤ × ℕ)
  pub channels : ℕ
  pub closed : List ℕ
  pub loop : Loop

-- the state that newTCPConnection and newTLSConnection start the goroutines with
unfoldable pub new_connection : Connection
new_connection = record {
  stop_err = none;
  stops = 0;
  respc = [];
  channels = 0;
  closed = [];
  loop = reading;
}

-- c.respc[correlationID]
unfoldable pub find_waiter : ℤ → List (ℤ × ℕ) → Option ℕ
find_waiter id [] = none
find_waiter id ((k, ch) ∷ rest) = if eqb id k then some ch else find_waiter id rest

-- delete(c.respc, correlationID)
unfoldable pub delete_waiter : ℤ → List (ℤ × ℕ) → List (ℤ × ℕ)
delete_waiter id [] = []
delete_waiter id ((k, ch) ∷ rest) = if eqb id k then rest else (k, ch) ∷ delete_waiter id rest

abbrev pub waiting : List (ℤ × ℕ) → List ℕ
waiting = map (λ w. w.1)

-- respWaiter behind its lookup
new_waiter : ℤ → Option ℕ → Connection → Returned ConnectionError ℕ × Connection
new_waiter id (some ch) c = (err (correlation_conflict id), c)
new_waiter id none c =
    (ok c.channels, record c { respc = (id, c.channels) ∷ c.respc; channels = suc c.channels })

stopped_or : Option ConnectionError → ℤ → Connection → Returned ConnectionError ℕ × Connection
unfolding new_waiter
stopped_or (some e) id c = (err e, c)
stopped_or none id c = new_waiter id (find_waiter id c.respc) c

unfoldable pub resp_waiter : ℤ → Connection → Returned ConnectionError ℕ × Connection
unfolding stopped_or
resp_waiter id c = stopped_or c.stop_err id c

release : ℤ → Option ℕ → Connection → Connection
release id (some ch) c = record c { respc = delete_waiter id c.respc; closed = ch ∷ c.closed }
release id none c = c

unfoldable pub release_waiter : ℤ → Connection → Connection
unfolding release
release_waiter id c = release id (find_waiter id c.respc) c

-- `if c.stopErr == nil { c.stopErr = e; close(c.stop) }`
stop_with : Option ConnectionError → ConnectionError → Connection → Connection
stop_with (some x) e c = c
stop_with none e c = record c { stop_err = some e; stops = suc c.stops }

-- Close, less the transport
unfoldable pub close_connection : Connection → Connection
unfolding stop_with
close_connection c = stop_with c.stop_err err_closed c

-- proto.ReadResp failed in the loop
unfoldable pub read_failed : GoError → Connection → Connection
unfolding stop_with
read_failed e c = record (stop_with c.stop_err (read_error e) c) { loop = returning }

-- proto.ReadResp gave a message: its waiter leaves the map, or there is none and the loop goes on
take_waiter : ℤ → Option ℕ → Connection → Connection
take_waiter id (some ch) c = record c { respc = delete_waiter id c.respc; loop = delivering ch }
take_waiter id none c = c

unfoldable pub received : ℤ → Connection → Connection
unfolding take_waiter
received id c = take_waiter id (find_waiter id c.respc) c

-- `case <-c.stop` of the select: the error stays, or is ErrClosed
unfoldable pub abandoned : ℕ → Connection → Connection
abandoned ch c = record c {
  stop_err = elim c.stop_err [ some e ↦ some e | none ↦ some err_closed ];
  loop = closing ch;
}

-- `case rc <- b` of the select
unfoldable pub delivered : ℕ → Connection → Connection
delivered ch c = record c { loop = closing ch }

-- `close(rc)`
unfoldable pub close_reply : ℕ → Connection → Connection
close_reply ch c = record c { closed = ch ∷ c.closed; loop = reading }

-- the deferred function
unfoldable pub close_waiting : Connection → Connection
close_waiting c = record c { closed = waiting c.respc ++ c.closed; respc = []; loop = ended }
