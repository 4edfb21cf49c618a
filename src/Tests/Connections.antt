-- ===== src/Tests/Connections.antt =====
-- Connections and multiplexers at concrete inputs.
use kafka_api.Common.{◌+◌, ◌%◌, ◌<◌, ◌≡◌, refl, List, [], ◌∷◌, arith}
use kafka_api.Common.Int.{ℤ, pos}
use kafka_api.Flow.{err}
use kafka_api.Proto.Errors.{eof}
use kafka_api.Proto.ApiVersions.{SupportedVersion}
use kafka_api.Connection.Versions.{
  get_best_version, get_best_version-greatest, get_best_version-none, supported,
  supported_by_driver, find_version, Speaks, IsUpTo,
}
use kafka_api.Connection.Ids.{nth_id, cycle, nth_id-mod}
use kafka_api.Connection.Waiters.{
  Connection, ConnectionError, ended, new_connection, resp_waiter, find_waiter, received, delivered,
  close_reply, read_failed, close_waiting, waiting,
}
use kafka_api.Connection.Waiters.Steps.{
  Reach, start, later, waits, reads, delivers, closes_reply, fails, returns, count, held,
}
use kafka_api.Connection.Waiters.Channels.{reply_channel_once}
use kafka_api.Connection.Waiters.Ending.{stop_count, stop_closed_once, ended-closed, ended-refuses}

abbrev broker : ℤ → ℤ → List (ℤ × SupportedVersion)
broker low high = (pos 3, record { api_key = pos 3; min_version = low; max_version = high }) ∷ []

abbrev ranges : ℤ → ℤ → SupportedVersion
ranges low high = record { api_key = pos 3; min_version = low; max_version = high }

metadata_versions :
    supported (pos 3) ≡ record { api_key = pos 0; min_version = pos 0; max_version = pos 5 }
unfolding supported supported_by_driver find_version
metadata_versions = refl

in_ours : Speaks (supported (pos 3)) (pos 4)
in_ours = rw metadata_versions (ground arith)

get_best_version-greatest_example :
    Speaks (supported (pos 3)) (get_best_version (broker (pos 2) (pos 9)) (pos 3))
    × Speaks (ranges (pos 2) (pos 9)) (get_best_version (broker (pos 2) (pos 9)) (pos 3))
    × IsUpTo (pos 4) (get_best_version (broker (pos 2) (pos 9)) (pos 3))
get_best_version-greatest_example =
    get_best_version-greatest (broker (pos 2) (pos 9)) (pos 3) (pos 4) (ranges (pos 2) (pos 9))
      (unfold find_version in refl) in_ours (ground arith)

apart : (v : ℤ) → Speaks (supported (pos 3)) v → ¬ Speaks (ranges (pos 6) (pos 9)) v
unfolding supported supported_by_driver find_version
apart v p q = ground arith

get_best_version-none_example : get_best_version (broker (pos 6) (pos 9)) (pos 3) ≡ pos 0
get_best_version-none_example =
    get_best_version-none (broker (pos 6) (pos 9)) (pos 3) (ranges (pos 6) (pos 9))
      (unfold find_version in refl) apart

nth_id-mod_example : nth_id 3 ≡ pos (3 % cycle + 1)
nth_id-mod_example = nth_id-mod 3

-- a request registers; its response arrives
abbrev registered : Connection
registered = (resp_waiter (pos 1) new_connection).1

abbrev taken : Connection
taken = received (pos 1) registered

abbrev answered : Connection
answered = close_reply 0 (delivered 0 taken)

answered-Reach : Reach answered
unfolding find_waiter new_connection resp_waiter received delivered
answered-Reach =
    later
      (later (later (later (start refl) (waits (pos 1) refl)) (reads (pos 1) refl refl))
        (delivers 0 refl refl))
      (closes_reply 0 refl refl)

one_channel : 0 < answered.channels
unfolding find_waiter new_connection resp_waiter received delivered close_reply
one_channel = omega arith

reply_channel_once_example :
    count 0 (waiting answered.respc) + held 0 answered.loop + count 0 answered.closed ≡ 1
reply_channel_once_example = reply_channel_once 0 answered-Reach one_channel

-- a request registers; the transport fails
abbrev broken : Connection
broken = read_failed eof registered

abbrev over : Connection
over = close_waiting broken

over-Reach : Reach over
unfolding find_waiter new_connection resp_waiter read_failed
over-Reach =
    later (later (later (start refl) (waits (pos 1) refl)) (fails eof refl refl))
      (returns refl refl)

over-ended : over.loop ≡ ended
unfolding close_waiting
over-ended = refl

over_channel : 0 < over.channels
unfolding find_waiter new_connection resp_waiter read_failed close_waiting
over_channel = omega arith

stop_closed_once_example : over.stops ≡ stop_count over.stop_err
stop_closed_once_example = stop_closed_once over-Reach

ended-closed_example : count 0 over.closed ≡ 1
ended-closed_example = ended-closed 0 over-Reach over-ended over_channel

ended-refuses_example : (e : ConnectionError) × (resp_waiter (pos 2) over ≡ (err e, over))
ended-refuses_example = ended-refuses (pos 2) over-Reach over-ended
