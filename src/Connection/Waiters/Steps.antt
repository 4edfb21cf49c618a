-- ===== src/Connection/Waiters/Steps.antt =====
-- A connection's goroutines as a step relation: any number of requests, Close at any time, and one
-- readRespLoop. Each step is what runs under one lock, or one operation on a channel.
use kafka_api.Common.{ℕ, ◌≡◌, ◌≢◌, ◌+◌, List, [], ◌∷◌, ◌==◌, if◌then◌else◌}
use kafka_api.Common.Int.{ℤ}
use kafka_api.Proto.Errors.{GoError}
use kafka_api.Connection.Waiters.{
  Connection, Loop, reading, delivering, closing, returning, new_connection, resp_waiter,
  release_waiter, close_connection, received, read_failed, delivered, abandoned, close_reply,
  close_waiting,
}

pub data Step (c d : Connection) : Type 0 where
  -- a request registers
  waits : (id : ℤ) → d ≡ (resp_waiter id c).1 → Step c d
  -- a request that could not be written gives up
  releases : (id : ℤ) → d ≡ release_waiter id c → Step c d
  closes : d ≡ close_connection c → Step c d
  -- the loop has read a message, or failed to
  reads : (id : ℤ) → c.loop ≡ reading → d ≡ received id c → Step c d
  fails : (e : GoError) → c.loop ≡ reading → d ≡ read_failed e c → Step c d
  -- the two cases of the select; the stop channel is readable once it is closed
  delivers : (ch : ℕ) → c.loop ≡ delivering ch → d ≡ delivered ch c → Step c d
  abandons : (ch : ℕ) → c.loop ≡ delivering ch → c.stops ≢ 0 → d ≡ abandoned ch c → Step c d
  closes_reply : (ch : ℕ) → c.loop ≡ closing ch → d ≡ close_reply ch c → Step c d
  returns : c.loop ≡ returning → d ≡ close_waiting c → Step c d

pub data Reach : Connection → Type 0 where
  start : {c : Connection} → c ≡ new_connection → Reach c
  later : {c d : Connection} → Reach c → Step c d → Reach d

-- how often a channel stands in a list
unfoldable pub count : ℕ → List ℕ → ℕ
count x [] = 0
count x (y ∷ ys) = (if x == y then 1 else 0) + count x ys

-- whether the loop holds a channel
unfoldable pub held : ℕ → Loop → ℕ
held x (delivering ch) = if x == ch then 1 else 0
held x (closing ch) = if x == ch then 1 else 0
held x _ = 0
