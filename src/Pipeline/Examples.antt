-- ===== src/Pipeline/Examples.antt =====
-- A run of a pipeline (pipeline/) of two stages.
use etherscan.Base.{
  length, ◌≤◌, ◌++◌, map, get_elem?, true, false, ℕ, zero, suc, ◌+◌, ◌≡◌, refl, Option, none, some,
  List, [], ◌∷◌, ltb, if◌then◌else◌,
}
use mathlib.Core.List.{IsPrefix}
use etherscan.Pipeline.Broadcast
use etherscan.Pipeline.Broadcast.Copies.{fire_all_copies}
use etherscan.Pipeline.Broadcast.Handed.{handed, in_hand}
use etherscan.Pipeline.Pool
use etherscan.Pipeline.Pool.Places.{tokens_left}
use etherscan.Pipeline.Pool.Weights.{Weights, weigh, of_payload, weigh_payloads}
use etherscan.Pipeline.Pool.Tokens.{fire_all_balance}
use etherscan.Pipeline.Order.Pending.{through}
use etherscan.Pipeline.Order.{fire_all_in_order}
use etherscan.Pipeline.{
  sending, receiving, Outcome, failed, dropped, produced, Event, feed, pass_on, stop, stop_source,
  collect, Outlet, Pipeline, fire_all, start,
}

-- A stage that drops 0 and fails on 9, and one that adds 1.
abbrev check_digit : ℕ → Outcome ℕ ℕ
check_digit zero = dropped
check_digit (suc n) = if ltb n 8 then produced (suc n) else failed 7

abbrev increase : ℕ → Outcome ℕ ℕ
increase n = produced (n + 1)

abbrev two_stages : List ℕ → Pipeline ℕ ℕ
two_stages source = start (check_digit ∷ increase ∷ []) (λ n. none) source none

abbrev consumed_after : Option (Pipeline ℕ ℕ) → Option (List ℕ × List ℕ × List ℕ)
consumed_after none = none
consumed_after (some l) = some (l.outlet.consumed, l.outlet.processed, l.err)

abbrev events : List Event
events =
    feed
    ∷ pass_on 0
    ∷ feed
    ∷ feed
    ∷ pass_on 1
    ∷ pass_on 0
    ∷ pass_on 1
    ∷ stop_source
    ∷ stop 0
    ∷ stop 1
    ∷ stop 2
    ∷ []

-- The 0 is dropped, and the others reach the sink in their order.
events-consumed :
    consumed_after (fire_all events (two_stages (3 ∷ 0 ∷ 5 ∷ [])))
    ≡ some (4 ∷ 6 ∷ [], 0 ∷ 4 ∷ 6 ∷ [], [])
unfolding fire_all start
events-consumed = refl

-- The error on the 9 cancels what the others do.
events-failed :
    consumed_after
      (fire_all (feed ∷ pass_on 0 ∷ feed ∷ collect ∷ stop 1 ∷ []) (two_stages (3 ∷ 9 ∷ [])))
    ≡ some ([], [], 7 ∷ [])
unfolding fire_all start
events-failed = refl

-- After five of the events one payload is in the sink, one is dropped, and one is at the first stage.
abbrev three : List ℕ
three = 3 ∷ 0 ∷ 5 ∷ []

abbrev some_events : List Event
some_events = feed ∷ pass_on 0 ∷ feed ∷ feed ∷ pass_on 1 ∷ []

abbrev under_way : Pipeline ℕ ℕ
under_way = record {
  source = [];
  source_error = none;
  source_running = true;
  stages =
      record { process = check_digit; worker = sending 5 }
      ∷ record { process = increase; worker = receiving }
      ∷ [];
  outlet = record {
    consume = λ n. none;
    consumed = 4 ∷ [];
    processed = 0 ∷ 4 ∷ [];
    running = true;
    err_capacity = 4;
    err_ch = [];
  };
  cancelled = false;
  err = [];
}

some_events-under_way : fire_all some_events (two_stages three) ≡ some under_way
unfolding fire_all start
some_events-under_way = refl

fire_all_in_order_example :
    IsPrefix under_way.outlet.consumed (through (check_digit ∷ increase ∷ []) three)
fire_all_in_order_example =
    fire_all_in_order (check_digit ∷ increase ∷ []) (λ n. none) three none some_events under_way
      some_events-under_way

-- Two of the three payloads are processed at a time.
abbrev pooled : List Pool.Event
pooled =
    Pool.read
    ∷ Pool.take_token
    ∷ Pool.read
    ∷ Pool.take_token
    ∷ Pool.read
    ∷ Pool.process 0
    ∷ Pool.process 0
    ∷ Pool.take_token
    ∷ Pool.leave
    ∷ Pool.send 1
    ∷ []

abbrev two_at_a_time : Pool.Pool ℕ ℕ
two_at_a_time = record {
  proc = check_digit;
  max_workers = 2;
  tokens = 1;
  loop = Pool.emptying 2;
  routines = Pool.processing 5 ∷ [];
  input = [];
  cancelled = false;
  output = 3 ∷ [];
  processed = 0 ∷ [];
  err_capacity = 3;
  err_ch = [];
  failures = [];
  unread = [];
  unsent = [];
}

pooled-two_at_a_time :
    Pool.fire_all pooled (Pool.new_pool check_digit 2 3 three) ≡ some two_at_a_time
unfolding Pool.fire_all Pool.new_pool
pooled-two_at_a_time = refl

fire_all_balance_example :
    (length two_at_a_time.routines ≤ 2)
    × (two_at_a_time.tokens + length two_at_a_time.routines ≡ tokens_left 2 two_at_a_time.loop)
    × ((weights : Weights ℕ ℕ)
        → weigh_payloads weights check_digit two_at_a_time
          ≡ weigh (of_payload weights check_digit) three)
fire_all_balance_example =
    fire_all_balance check_digit 2 3 three pooled two_at_a_time pooled-two_at_a_time

-- Two FIFOs get the payloads 0 and 5, the second of them copies, here with 10 added.
abbrev add_ten : ℕ → ℕ
add_ten n = n + 10

abbrev outlet : Outlet ℕ ℕ
outlet = record {
  consume = λ n. none;
  consumed = [];
  processed = [];
  running = true;
  err_capacity = 3;
  err_ch = [];
}

abbrev two_fifos : Broadcast.Broadcast ℕ ℕ
two_fifos = record {
  clone = add_ten;
  fifos = Broadcast.new_fifos (check_digit ∷ increase ∷ []);
  outlet = outlet;
  loop = Broadcast.running;
  pending = none;
  passed = [];
  input = three;
  cancelled = false;
  output = [];
}

-- The second FIFO has 13 and 10, the first only 3.
abbrev broadcasting : List Broadcast.Event
broadcasting =
    Broadcast.read
    ∷ Broadcast.pass
    ∷ Broadcast.pass
    ∷ Broadcast.send 1
    ∷ Broadcast.read
    ∷ Broadcast.pass
    ∷ Broadcast.send 0
    ∷ []

abbrev second_ahead : Broadcast.Broadcast ℕ ℕ
second_ahead = record two_fifos {
  fifos =
      record { stage = record { process = check_digit; worker = receiving }; taken = 3 ∷ [] }
      ∷ record { stage = record { process = increase; worker = sending 11 }; taken = 13 ∷ 10 ∷ [] }
      ∷ [];
  pending = some (1, 0);
  passed = 3 ∷ [];
  input = 5 ∷ [];
  output = 14 ∷ 3 ∷ [];
}

two_fifos-new :
    Broadcast.new_broadcast (check_digit ∷ increase ∷ []) add_ten outlet three ≡ some two_fifos
unfolding Broadcast.new_broadcast
two_fifos-new = refl

broadcasting-second_ahead : Broadcast.fire_all broadcasting two_fifos ≡ some second_ahead
unfolding Broadcast.fire_all
broadcasting-second_ahead = refl

fire_all_copies_example :
    (second_ahead.passed ++ (in_hand second_ahead.pending ++ second_ahead.input) ≡ three)
    × ((i : ℕ) (f : Broadcast.Fifo ℕ ℕ)
        → get_elem? second_ahead.fifos i ≡ some f
        → f.taken
          ≡ map (Broadcast.copy add_ten i) (handed i second_ahead.passed second_ahead.pending))
fire_all_copies_example =
    fire_all_copies (check_digit ∷ increase ∷ []) add_ten outlet three broadcasting two_fifos
      second_ahead two_fifos-new broadcasting-second_ahead
