-- ===== src/Multiplexer.antt =====
-- Mx of v2/multiplexer.go: a worker for each merged consumer, Close and Consume, as a step relation.
-- Each step is what runs under the mutex, or one operation on a channel.
pub mod Closing
pub mod Delivery
use kafka_api.Common.{
  ℕ, zero, suc, ◌+◌, ◌-◌, ◌≡◌, ◌≢◌, Bool, true, false, List, [], ◌∷◌, ◌++◌, ◌==◌, if◌then◌else◌,
}
use kafka_api.Proto.Message.{Message}

-- what a consumer's Consume returns, other than ErrNoData
pub data Outcome : Type 0 where
  message : Message → Outcome
  failed : ℕ → Outcome

-- Where a worker stands: before or in c.Consume(); before the select that sends what it returned;
-- returning, before its deferred function; behind it.
pub data Worker : Type 0 where
  consuming : Worker
  holding : Outcome → Worker
  leaving : Worker
  gone : Worker

-- `stops` counts how often close(p.stop) ran. The number of workers never goes below 0.
pub record Mx : Type 0 where
  pub closed : Bool
  pub stops : ℕ
  pub workers : ℕ

-- Close: `if !p.closed { p.closed = true; close(p.stop) }`
stop_unless : Bool → Mx → Mx
stop_unless true p = p
stop_unless false p = record p { closed = true; stops = suc p.stops }

unfoldable pub close : Mx → Mx
unfolding stop_unless
close p = stop_unless p.closed p

-- the deferred function: `p.workers--; if p.workers == 0 && !p.closed { close(p.stop); p.closed = true }`
unfoldable pub leave : Mx → Mx
leave p = let q = record p { workers = p.workers - 1 } in if q.workers == 0 then close q else q

-- The multiplexer, its workers, and what came to them and went from them: what the consumers
-- returned, what calls of Consume on the multiplexer returned, and what was given up.
pub record System : Type 0 where
  pub mx : Mx
  pub workers : List Worker
  pub came : List Outcome
  pub went : List Outcome
  pub lost : List Outcome
  -- len(consumers)
  pub merged : ℕ

unfoldable pub all_consuming : ℕ → List Worker
all_consuming zero = []
all_consuming (suc n) = consuming ∷ all_consuming n

-- Merge of n consumers
unfoldable pub merge : ℕ → System
merge n = record {
  mx = record { closed = false; stops = 0; workers = n };
  workers = all_consuming n;
  came = [];
  went = [];
  lost = [];
  merged = n;
}

pub data Step (s t : System) : Type 0 where
  -- Close is called
  closes : t ≡ record s { mx = close s.mx } → Step s t
  -- a consumer returns a message or an error
  takes :
      (front back : List Worker) (o : Outcome)
      → s.workers ≡ front ++ consuming ∷ back
      → t ≡ record s { workers = front ++ holding o ∷ back; came = o ∷ s.came }
      → Step s t
  -- a consumer returns ErrNoData
  no_data :
      (front back : List Worker)
      → s.workers ≡ front ++ consuming ∷ back
      → t ≡ record s { workers = front ++ leaving ∷ back }
      → Step s t
  -- Consume takes what a worker holds
  delivers :
      (front back : List Worker) (o : Outcome)
      → s.workers ≡ front ++ holding o ∷ back
      → t ≡ record s { workers = front ++ consuming ∷ back; went = o ∷ s.went }
      → Step s t
  -- `case <-p.stop`, which is ready once the stop channel is closed
  stops :
      (front back : List Worker) (o : Outcome)
      → s.workers ≡ front ++ holding o ∷ back
      → s.mx.stops ≢ 0
      → t ≡ record s { workers = front ++ leaving ∷ back; lost = o ∷ s.lost }
      → Step s t
  leaves :
      (front back : List Worker)
      → s.workers ≡ front ++ leaving ∷ back
      → t ≡ record s { mx = leave s.mx; workers = front ++ gone ∷ back }
      → Step s t

pub data Reach (n : ℕ) : System → Type 0 where
  start : {s : System} → s ≡ merge n → Reach n s
  later : {s t : System} → Reach n s → Step s t → Reach n t
