-- ===== src/Tests/Merged.antt =====
-- A multiplexer of one consumer, which has one message.
use kafka_api.Common.{◌+◌, ◌≡◌, refl, true, false, some, [], ◌∷◌, arith}
use kafka_api.Common.Int.{pos}
use kafka_api.Multiplexer.{
  Outcome, message, consuming, holding, gone, Mx, System, merge, all_consuming, leave, Reach, start,
  later, takes, no_data, delivers, leaves,
}
use kafka_api.Multiplexer.Closing.{active, stop_count, closed_once, closed_when_left}
use kafka_api.Multiplexer.Delivery.{tally, held, came-went}

abbrev item : Outcome
item = message (record {
  key = some [];
  value = some [];
  offset = pos 0;
  crc = 0;
  topic = [];
  partition = pos 0;
  tip_offset = pos 0;
})

abbrev opened : Mx
opened = record { closed = false; stops = 0; workers = 1 }

abbrev took : System
took = record {
  mx = opened;
  workers = holding item ∷ [];
  came = item ∷ [];
  went = [];
  lost = [];
  merged = 1;
}

took-Reach : Reach 1 took
unfolding merge all_consuming
took-Reach = later (start refl) (takes [] [] item refl refl)

abbrev idle : System
idle = record {
  mx = opened;
  workers = consuming ∷ [];
  came = item ∷ [];
  went = item ∷ [];
  lost = [];
  merged = 1;
}

idle-Reach : Reach 1 idle
idle-Reach = later took-Reach (delivers [] [] item refl refl)

abbrev finished : System
finished = record {
  mx = leave opened;
  workers = gone ∷ [];
  came = item ∷ [];
  went = item ∷ [];
  lost = [];
  merged = 1;
}

finished-Reach : Reach 1 finished
finished-Reach = later (later idle-Reach (no_data [] [] refl refl)) (leaves [] [] refl refl)

closed_once_example : finished.mx.stops ≡ stop_count finished.mx.closed
closed_once_example = closed_once finished-Reach

none_left : active finished.workers ≡ 0
unfolding active
none_left = refl

closed_when_left_example : finished.mx.closed ≡ true
closed_when_left_example = closed_when_left finished-Reach (omega arith) none_left

came-went_example :
    tally (λ o. true) took.came ≡ tally (λ o. true) took.went + held (λ o. true) took.workers
came-went_example = came-went (λ o. true) took-Reach refl
