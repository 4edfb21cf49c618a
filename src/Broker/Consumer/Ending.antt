-- ===== src/Broker/Consumer/Ending.antt =====
-- Consume of v2/broker.go ends, with a limit to its retries, and how.
use kafka_api.Common.{
  ltb_cases, ℕ, zero, suc, ◌+◌, ◌<◌, ◌≤◌, ◌≡◌, refl, ap, ◌∙◌, subst, false, Option, none, some,
  List, [], ◌∷◌, ◌⊎◌, inl, inr, arith, List-cases, ltb,
}
use kafka_api.Common.Int.{ℤ, pos, negsuc, less, add_int64}
use kafka_api.Proto.Errors.{GoError, eqb}
use kafka_api.Proto.Message.{Message}
use kafka_api.Proto.FetchRequest.{FetchReq}
use kafka_api.Broker.{Error, Network, TopicPartition, Broker}
use kafka_api.Broker.Extract.{FetchResp}
use kafka_api.Broker.Trim.{trim_leading_messages}
use kafka_api.Broker.Panics.{Panics, Within, any-Within}
use kafka_api.Broker.Consumer.{
  Fetched, deliver, consume_loop, consume_one, consumed, fetch, refilled, Consumer, Run,
}
use kafka_api.Broker.Consumer.Steps.{IsAt, fetch-Within}

module _ {C W : Type 0} (net : Network C W)
    (ask : C → FetchReq → W → Option ((GoError ⊎ FetchResp) × W)) (pause : Broker C W → Broker C W)
    (tp : TopicPartition) (z : ℤ) (n : ℕ) (P : List Message → Type 0) (X : Type 0) where
  -- what a call of fetch leaves
  abbrev Fetches : Fetched × Consumer C W → Type 0
  Fetches ((ms, e), c) = IsAt tp z n c × P ms

  -- what consume leaves: a batch that is returned is not empty
  abbrev Consumes : Run net ask pause (Error ⊎ List Message) → Type 0
  Consumes none = ⊥
  Consumes (some none) = X
  Consumes (some (some (inl e, c))) = IsAt tp z n c
  Consumes (some (some (inr [], c))) = ⊥
  Consumes (some (some (inr (m ∷ ms), c))) = IsAt tp z n c × P (m ∷ ms)

  -- what Consume leaves: a message and behind it what is buffered, or an error and no more in the
  -- buffer; X is the condition of a panic
  abbrev pub Delivers : Run net ask pause (Error ⊎ Message) → Type 0
  Delivers none = ⊥
  Delivers (some none) = X
  Delivers (some (some (inl e, c))) = IsAt tp z n c × (c.msgbuf ≡ [])
  Delivers (some (some (inr m, c))) = IsAt tp (add_int64 1 m.offset) n c × P (m ∷ c.msgbuf)

  consumed-Consumes :
      (retry : ℕ) (a : Option (Fetched × Consumer C W))
      (again : Consumer C W → Run net ask pause (Error ⊎ List Message))
      → Within X Fetches a
      → (retry < n → (c : Consumer C W) → IsAt tp z n c → Consumes (again c))
      → Consumes (consumed net ask pause retry again a)
  unfolding consumed
  consumed-Consumes retry none again h k = h
  consumed-Consumes retry (some ((ms, some e), c)) again (at, _) k = at
  consumed-Consumes retry (some ((m ∷ ms, none), c)) again h k = h
  consumed-Consumes retry (some (([], none), c)) again (at, _) k =
      let limited : eqb c.conf.retry_limit (negsuc 0) ≡ false =
        ap (λ x. eqb x (negsuc 0)) at.limit in
      let test : less c.conf.retry_limit (pos (suc retry)) ≡ ltb n (suc retry) =
        ap (λ x. less x (pos (suc retry))) at.limit in
      elim (ltb_cases n (suc retry)) [
        | inl (t, _) ↦ rw (Consumes, consumed, limited, test ∙ t) at
        | inr (f, l) ↦ rw (Consumes, consumed, limited, test ∙ f) (k (omega arith) c at)
      ]

  consume_loop-Consumes :
      (fuel retry : ℕ) (c : Consumer C W)
      → ((c : Consumer C W) → IsAt tp z n c → Within X Fetches (fetch net ask pause c))
      → IsAt tp z n c
      → retry ≤ n
      → n < fuel + retry
      → Consumes (consume_loop net ask pause fuel retry c)
  unfolding consume_loop
  consume_loop-Consumes zero retry c fetches at l h = absurd (omega arith)
  consume_loop-Consumes (suc fuel) retry c fetches at l h =
      consumed-Consumes retry (fetch net ask pause c) (consume_loop net ask pause fuel (suc retry))
        (fetches c at)
        (λ less c' at'.
          consume_loop-Consumes fuel (suc retry) c' fetches at' (omega arith) (omega arith))

  refilled-Delivers :
      (a : Run net ask pause (Error ⊎ List Message))
      → Consumes a
      → Delivers (refilled net ask pause a)
  unfolding refilled deliver
  refilled-Delivers none h = absurd h
  refilled-Delivers (some none) h = h
  refilled-Delivers (some (some (inl e, c))) at =
      (record { place = at.place; offset = at.offset; limit = at.limit; leader = at.leader }, refl)
  refilled-Delivers (some (some (inr [], c))) h = absurd h
  refilled-Delivers (some (some (inr (m ∷ ms), c))) (at, batch) =
      (record { place = at.place; offset = refl; limit = at.limit; leader = at.leader }, batch)

  pub consume_one-Delivers :
      (fuel : ℕ) (c : Consumer C W)
      → ((c : Consumer C W) → IsAt tp z n c → Within X Fetches (fetch net ask pause c))
      → IsAt tp z n c
      → P c.msgbuf
      → n < fuel
      → Delivers (consume_one net ask pause fuel c)
  unfolding consume_one deliver
  consume_one-Delivers fuel c fetches at buffered h = elim (List-cases c.msgbuf) [
    | inl empty ↦
        rw (Delivers, consume_one, empty)
          (refilled-Delivers (consume_loop net ask pause fuel 0 c)
            (consume_loop-Consumes fuel 0 c fetches at (omega arith) (omega arith)))
    | inr (m, ms, held) ↦
        rw (Delivers, consume_one, held)
          (
            record { place = at.place; offset = refl; limit = at.limit; leader = at.leader },
            subst P held buffered,
          )
  ]

module _ {C W : Type 0} (net : Network C W)
    (ask : C → FetchReq → W → Option ((GoError ⊎ FetchResp) × W)) where
  -- a call of a connection that panics, in reading its response or in trimming it
  pub data Breaks : Type 0 where
    calling : Panics net → Breaks
    reading : (conn : C) (req : FetchReq) (w : W) → ask conn req w ≡ none → Breaks
    trimming :
        (conn : C) (req : FetchReq) (w w' : W) (resp : FetchResp)
        → ask conn req w ≡ some (inr resp, w')
        → trim_leading_messages req resp ≡ none
        → Breaks

  abbrev Anything : List Message → Type 0
  Anything ms = Unit {0}

  -- With a limit n to the retries, a leader that is asked for at least once, and pauses that keep the
  -- broker's configuration, Consume ends within n + 1 calls of fetch, whatever the cluster answers:
  -- with a message, from behind which the consumer goes on, or with an error, where it stays at its
  -- offset with an empty buffer, or in a panic, which is one of a call of a connection.
  pub consume_one-Ends :
      (pause : Broker C W → Broker C W)
      → ((b : Broker C W) → (pause b).conf ≡ b.conf)
      → (tp : TopicPartition) (z : ℤ) (n fuel : ℕ) (c : Consumer C W) → IsAt tp z n c
      → n < fuel
      → Delivers net ask pause tp z n Anything Breaks (consume_one net ask pause fuel c)
  consume_one-Ends pause pause-conf tp z n fuel c at h =
      consume_one-Delivers net ask pause tp z n Anything Breaks fuel c
        (λ c' at'.
          fetch-Within net ask pause pause-conf tp z n Anything Breaks (λ p. calling p)
            (λ conn req w e. reading conn req w e)
            (λ conn req w w' resp for e.
              any-Within Breaks (trim_leading_messages req resp)
                (λ out. trimming conn req w w' resp e out))
            c' tt at')
        at tt h
