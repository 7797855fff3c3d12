-- ===== src/Aggregator/Examples.antt =====
-- A concrete service and encoding, and the theorems on the aggregator at them.
use blockless_avs_tools.Base.{
  true, ℕ, List, [], ◌∷◌, none, some, ok, err, GoError, message, ◌≡◌, ◌≢◌, refl, arith, pos,
  replicate, Dict, contains, insert, nat_eq, bytes_eq, if◌then◌else◌, ◌<◌, ◌^◌, ◌+◌, get_elem?,
}
use blockless_avs_tools.Bindings.{Price, OracleRequest, zero_price}
use blockless_avs_tools.Core.Digest.{abi_encode_price_response, get_price_digest}
use blockless_avs_tools.Core.Examples.{abi}
use blockless_avs_tools.Aggregator.State.{
  SignedOracleResponse, BlsService, Aggregator, new_aggregator, response_at,
}
use blockless_avs_tools.Aggregator.Rpc.{
  process_signed_oracle_response, oracle_request, store_price, store_response, initialize_new_task,
}
use blockless_avs_tools.Aggregator.Rpc.Running.{RunsOneTaskPerIndex, second_response_refused}
use blockless_avs_tools.Aggregator.Send.{read_task}
use blockless_avs_tools.Aggregator.Send.Laws.{read_task-wrong_price}
use blockless_avs_tools.Aggregator.Sections.{
  Phase, received, signing, advance, advance_many, System, arrive, move, Reach, start, next,
}
use blockless_avs_tools.Aggregator.Sections.Reachable.{Reach-request_answers, Step-keeps_request}
use blockless_avs_tools.Chainio.Subscriber.{subscribe_to_oracle_update_responses}
use blockless_avs_tools.Aggregator.Start.{
  Libraries, Running, subscription_error, crashed, nil_dereference, start_loop,
}

abbrev pub already : ℕ → GoError
already i = message "already initialized"

-- The running tasks with their blocks.
abbrev pub service : BlsService ℕ (Dict ℕ ℕ)
service = record {
  initialize_new_task = λ i block quorums percentages expiry s.
      if contains i s then (some (already i), s) else (none, insert i block s);
  process_new_signature = λ i digest sig operator s. (none, s);
}

runs : RunsOneTaskPerIndex service
runs = record {
  has_task = λ i s. contains i s;
  already_initialized = already;
  running_task_is_refused = λ i block quorums percentages expiry s h. ground arith;
}

abbrev pub btc : ℕ → Price
btc time = record { symbol = "bitcoin"; price = some (pos 42_000_000_000); timestamp = time }

abbrev pub signed : ℕ → SignedOracleResponse ℕ
signed time = record { price_response = btc time; bls_signature = 9; operator_id = 1 ∷ [] }

abbrev pub nil_price : SignedOracleResponse ℕ
nil_price = record { price_response = zero_price; bls_signature = 9; operator_id = 1 ∷ [] }

abbrev pub digest_of : ℕ → List ℕ
digest_of time = time ∷ replicate 31 0

abbrev pub fresh : Aggregator (Dict ℕ ℕ)
fresh = new_aggregator []

abbrev pub btc_request : OracleRequest
btc_request = oracle_request (btc 5) 11

digest_example : get_price_digest abi (btc 5) ≡ ok (digest_of 5)
unfolding get_price_digest abi_encode_price_response
digest_example = refl

-- A run of one call alone, after `n` moves.
abbrev pub moved : ℕ → System abi service
moved n =
    let (p, agg) = advance_many abi service n (ok 11) (received (signed 5), fresh) in
    record { agg = agg; calls = p ∷ [] }

reach0 : Reach abi service (record { agg = fresh; calls = [] })
reach0 = start []

reach1 : Reach abi service (moved 0)
unfolding advance_many
reach1 = next reach0 (arrive _ (signed 5))

reach2 : Reach abi service (moved 1)
unfolding advance_many advance get_price_digest abi_encode_price_response
reach2 = next reach1 (move (moved 0) 0 (received (signed 5)) (ok 11) refl)

-- The next phase of the call.
abbrev phase : ℕ → Phase ℕ
phase n = (advance_many abi service n (ok 11) (received (signed 5), fresh)).0

reach3 : Reach abi service (moved 2)
unfolding advance_many advance get_price_digest abi_encode_price_response
reach3 = next reach2 (move (moved 1) 0 (phase 1) (ok 11) refl)

reach4 : Reach abi service (moved 3)
unfolding advance_many advance get_price_digest abi_encode_price_response
reach4 = next reach3 (move (moved 2) 0 (phase 2) (ok 11) refl)

reach5 : Reach abi service (moved 4)
unfolding advance_many advance get_price_digest abi_encode_price_response
reach5 = next reach4 (move (moved 3) 0 (phase 3) (ok 11) refl)

reach6 : Reach abi service (moved 5)
unfolding advance_many advance get_price_digest abi_encode_price_response
reach6 = next reach5 (move (moved 4) 0 (phase 4) (ok 11) refl)

stored : response_at 0 (digest_of 5) (moved 5).agg.oracle_responses ≡ some btc_request
unfolding advance_many advance get_price_digest abi_encode_price_response new_aggregator
    store_response store_price initialize_new_task oracle_request
stored = refl

Reach-request_answers_example :
    (p : Price) × (get_price_digest abi p ≡ ok (digest_of 5))
    × (btc_request.symbol ≡ p.symbol)
    × (btc_request.quorum_numbers ≡ 0 ∷ [])
    × (btc_request.quorum_threshold_percentage ≡ 100)
    × (btc_request.reference_block_number < 2 ^ 32)
Reach-request_answers_example = Reach-request_answers abi service (digest_of 5) reach6 stored

Step-keeps_request_example :
    response_at 0
      (digest_of 5)
      (record (moved 5) { calls = received (signed 6) ∷ (moved 5).calls }).agg.oracle_responses
    ≡ some btc_request
Step-keeps_request_example =
    Step-keeps_request abi service (digest_of 5) reach6 (arrive (moved 5) (signed 6)) stored

is_signing : get_elem? (moved 5).calls 0 ≡ some (signing (signed 5) (digest_of 5))
unfolding advance_many advance get_price_digest abi_encode_price_response new_aggregator
    store_response store_price initialize_new_task oracle_request
is_signing = refl

digest_ok : (time : ℕ) → get_price_digest abi (btc time) ≡ ok (digest_of time)
unfolding get_price_digest abi_encode_price_response
digest_ok time = refl

-- The aggregator after the first response.
abbrev pub after_first : Aggregator (Dict ℕ ℕ)
after_first = (process_signed_oracle_response abi service (signed 5) (ok 11) fresh).1

first_accepted : (process_signed_oracle_response abi service (signed 5) (ok 11) fresh).0 ≡ ok tt
unfolding process_signed_oracle_response get_price_digest abi_encode_price_response new_aggregator
first_accepted = refl

other_digest : digest_of 5 ≢ digest_of 6
other_digest e = ground arith

read_task-wrong_price_example :
    let agg' = (process_signed_oracle_response abi service (signed 6) (ok 12) after_first).1 in
    let (_, price) = read_task agg' after_first.oracle_request_index (digest_of 5) in
    (price ≡ btc 6) × (get_price_digest abi price ≢ ok (digest_of 5))
read_task-wrong_price_example =
    read_task-wrong_price abi service (signed 6) 12 after_first (digest_of 5) (digest_ok 6)
      other_digest

still_runs : runs.has_task fresh.oracle_request_index (insert 0 11 []) ≡ true
unfolding runs new_aggregator
still_runs = refl

second_response_refused_example :
    let later = record after_first { bls_aggregation_service = insert 0 11 [] } in
    let (result, after) = process_signed_oracle_response abi service (signed 6) (ok 12) later in
    (result ≡ err (already 0))
    × (after ≡ record later { prices = insert 0 (btc 6) after_first.prices })
    × (read_task after 0 (digest_of 5) ≡ (oracle_request (btc 5) 11, btc 6))
unfolding runs new_aggregator
second_response_refused_example =
    second_response_refused abi service runs (signed 5) (signed 6) 11 12 fresh (insert 0 11 [])
      (digest_ok 5) (digest_ok 6) first_accepted still_runs

nil_digest : get_price_digest abi zero_price ≡ err (message "nil")
unfolding get_price_digest abi_encode_price_response
nil_digest = refl

abbrev busy : Aggregator (Dict ℕ ℕ)
busy = record fresh { bls_aggregation_service = insert 0 11 [] }

busy-refuses :
    initialize_new_task abi service 12 (store_price (btc 6) busy)
    ≡ (err (already 0), store_price (btc 6) busy)
unfolding initialize_new_task new_aggregator store_price
busy-refuses = refl

abbrev initialized : Aggregator (Dict ℕ ℕ)
initialized = record (store_price (btc 5) fresh) { bls_aggregation_service = insert 0 11 [] }

fresh-takes : initialize_new_task abi service 11 (store_price (btc 5) fresh) ≡ (ok tt, initialized)
unfolding initialize_new_task new_aggregator store_price
fresh-takes = refl

-- A chain that only refuses subscriptions.
abbrev libs : Libraries (Unit {0}) ℕ ℕ (Dict ℕ ℕ) ℕ ℕ ℕ ℕ ℕ
libs = record {
  abi = abi;
  service = service;
  big_int = λ x. x;
  tx_mgr = record {
    get_no_send_tx_opts = λ w. (ok 0, w);
    update_oracle_price = λ opts req p stakes w. (ok 1, w);
    send = λ tx w. (ok 2, w + 1);
  };
  watch_oracle_update = λ w. (err (message "no ws"), w);
}

abbrev running : Running (Dict ℕ ℕ) ℕ
running = record { agg = fresh; chain = 0 }

crash :
    (start_loop libs (some 0) (subscription_error (message "closed") ∷ []) running).0
    ≡ crashed nil_dereference
unfolding start_loop subscribe_to_oracle_update_responses
crash = refl
