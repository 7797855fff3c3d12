-- ===== src/Pipeline/Examples.antt =====
-- One operator's response, all the way to the transaction.
use blockless_avs_tools.Base.{
  ◌==◌, if◌then◌else◌, ℕ, ◌+◌, String, List, [], ◌∷◌, none, some, message, err, arith, string_eq,
  insert, ok, returned, ◌≡◌, refl, nat_eq, bytes_eq, replicate,
}
use blockless_avs_tools.Base.Effects.{Effect}
use blockless_avs_tools.Core.Digest.{abi_encode_price_response, get_price_digest}
use blockless_avs_tools.Core.Examples.{abi}
use blockless_avs_tools.Chainio.Writer.{OracleTx, send_aggregated_oracle_response}
use blockless_avs_tools.Aggregator.State.{new_aggregator, response_at}
use blockless_avs_tools.Aggregator.Rpc.{process_signed_oracle_response, oracle_request}
use blockless_avs_tools.Aggregator.Send.{
  BlsAggregationServiceResponse, non_signer_stakes_and_signature,
  send_aggregated_oracle_response_to_contract,
}
use blockless_avs_tools.Aggregator.Examples.{service, fresh}
use blockless_avs_tools.Operator.Coingecko.{get_price_by_id, format_price_to_six_decimals}
use blockless_avs_tools.Operator.Oracle.{process_oracle_update_request, sign_oracle_response}
use blockless_avs_tools.Operator.Start.{respond}
use blockless_avs_tools.Operator.Examples.{float, web, sign_message, signed}
use blockless_avs_tools.Pipeline.{respond-sent}
use blockless_avs_tools.Pipeline.Stored.{respond-stored}
use blockless_avs_tools.Bindings.{OracleRequest, NonSignerStakesAndSignature}
use blockless_avs_tools.Bindings.Values.{
  Any, text, request_struct, price_struct, stakes_struct, Bind,
}
use blockless_avs_tools.Bindings.Handles.{handle_of}
use blockless_avs_tools.Bindings.Examples.{converters, own, onchain}
use blockless_avs_tools.Bindings.Avs.Reads
use blockless_avs_tools.Bindings.Avs.Writes
use blockless_avs_tools.Bindings.Avs.Chain.{go_price, storage_after}
use blockless_avs_tools.Chainio.Writer.Deployed.{
  TxManager, oracle_tx, IsNode, send_aggregated_oracle_response-reads,
}
use blockless_avs_tools.Contract
use blockless_avs_tools.Contract.{
  OnchainPrice, Storage, Env, OracleUpdate, done, check_thresholds, validate_oracle_price,
}
use blockless_avs_tools.Contract.Examples.{checker, no_prices, event_of}

-- A chain that counts the calls.
abbrev tx_mgr : OracleTx ℕ ℕ ℕ ℕ
tx_mgr = record {
  get_no_send_tx_opts = λ w. (ok 0, w + 1);
  update_oracle_price = λ opts request price stakes w. (ok 1, w + 1);
  send = λ tx w. (ok 2, w + 1);
}

abbrev digest : List ℕ
digest = 5 ∷ replicate 31 0

abbrev answer : BlsAggregationServiceResponse ℕ
answer = record {
  service_err = none;
  task_index = 0;
  task_response_digest = digest;
  non_signers_pubkeys_g1 = [];
  quorum_apks_g1 = record { x = 1; y = 2 } ∷ [];
  signers_apk_g2 = record { x = record { a0 = 3; a1 = 4 }; y = record { a0 = 5; a1 = 6 } };
  signers_agg_sig_g1 = record { x = 7; y = 8 };
  non_signer_quorum_bitmap_indices = [];
  quorum_apk_indices = 0 ∷ [];
  total_stake_indices = 0 ∷ [];
  non_signer_stake_indices = [];
}

responds : respond abi float sign_message (1 ∷ []) "bitcoin" (ok 5) (web 42) ≡ ok signed
unfolding respond process_oracle_update_request sign_oracle_response get_price_by_id
    format_price_to_six_decimals get_price_digest abi_encode_price_response
responds = refl

has_digest : get_price_digest abi signed.price_response ≡ ok digest
unfolding get_price_digest abi_encode_price_response
has_digest = refl

none_before : response_at 0 digest fresh.oracle_responses ≡ none
unfolding new_aggregator
none_before = refl

index_zero : 0 ≡ fresh.oracle_request_index
unfolding new_aggregator
index_zero = refl

taken : (process_signed_oracle_response abi service signed (ok 11) fresh).0 ≡ ok tt
unfolding process_signed_oracle_response get_price_digest abi_encode_price_response new_aggregator
taken = refl

respond-sent_example :
    let agg' = (process_signed_oracle_response abi service signed (ok 11) fresh).1 in
    let request = oracle_request signed.price_response 11 in
    (send_aggregated_oracle_response_to_contract (λ x. x) tx_mgr answer agg' 0 ≡ (
      returned tt,
      (send_aggregated_oracle_response tx_mgr request signed.price_response
          (non_signer_stakes_and_signature (λ x. x) answer)
          0).1,
    ))
    × (request.symbol ≡ "bitcoin")
    × (signed.price_response.symbol ≡ "bitcoin")
    × (signed.bls_signature ≡ sign_message digest)
unfolding new_aggregator
respond-sent_example =
    respond-sent abi float sign_message (1 ∷ []) service (λ x. x) tx_mgr "bitcoin" (ok 5) (web 42)
      signed 11 fresh digest answer 0 responds has_digest none_before taken refl index_zero refl

-- A node whose world is the storage; a signed transaction is what it does to it.
abbrev env : Env
env = record { sender = 7; block_number = 100; block_timestamp = 60 }

abbrev sign_transaction : String → List Any → Effect Storage (Storage → Storage)
sign_transaction method (request_struct r ∷ price_struct p ∷ stakes_struct t ∷ []) s =
    if method == "updateOraclePrice"
    then elim (onchain p) [
      | some q ↦
          (ok (λ s'. storage_after (Contract.update_oracle_price checker env r q t s') s'), s)
      | none ↦ (err (message "abi"), s)
    ]
    else (err (message "unknown method"), s)
sign_transaction method _ s = (err (message "unknown method"), s)

abbrev call_view : String → List Any → Effect Storage (List Any)
call_view method (text symbol ∷ []) s =
    (ok (price_struct (go_price (Contract.price symbol s)) ∷ []), s)
call_view method _ s = (err (message "unknown method"), s)

abbrev bind : Bind Storage ℕ (Unit {0}) (Unit {0}) (Storage → Storage)
bind = record {
  call = λ contract opts. call_view;
  transact = λ contract opts. sign_transaction;
  transfer = λ contract opts s. (err (message "no function"), s);
  convert_type = converters;
}

abbrev sender : TxManager Storage (Unit {0}) (Storage → Storage) ℕ
sender = record { get_no_send_tx_opts = λ s. (ok tt, s); send = λ tx s. (ok 1, tx s) }

abbrev at_5 : OnchainPrice
at_5 = record { symbol = "bitcoin"; price = 42_000_000; timestamp = 5 }

node : IsNode bind sender 9 tt checker
node = record {
  storage = λ s. s;
  env = λ s. env;
  call_price = λ symbol s. refl;
  opts_keep = λ s opts s₁ h. ground arith;
  sign_keep = λ opts r p t s tx s₁ h. ground arith;
  send_runs = λ opts r p t s tx s₁ receipt s₂ h sent. ground arith;
}

abbrev contract_request : OracleRequest
contract_request = oracle_request (go_price at_5) 11

-- The transaction that the writer has signed, and the storage after it.
abbrev stakes : NonSignerStakesAndSignature
stakes = non_signer_stakes_and_signature (λ x. x) answer

abbrev store_price : Storage → Storage
store_price s =
    storage_after (Contract.update_oracle_price checker env contract_request at_5 stakes s) s

has_signed :
    Writes.update_oracle_price bind
      (handle_of 9).transactor
      tt
      contract_request
      (go_price at_5)
      stakes
      no_prices
    ≡ (ok store_price, no_prices)
unfolding Writes.update_oracle_price
has_signed = refl

accepted :
    Contract.update_oracle_price checker env contract_request at_5 stakes no_prices
    ≡ done (record no_prices { prices = insert "bitcoin" at_5 [] }, event_of at_5)
unfolding Contract.update_oracle_price check_thresholds validate_oracle_price oracle_request
    Contract.price
accepted = refl

sent_well : sender.send store_price no_prices ≡ (ok 1, store_price no_prices)
sent_well = refl

send_aggregated_oracle_response-reads_example :
    let w' =
      (send_aggregated_oracle_response
        (oracle_tx bind sender 9)
        contract_request
        (go_price at_5)
        stakes
        no_prices).1 in
    Reads.price bind (handle_of 9).caller tt "bitcoin" w' ≡ (returned (ok (go_price at_5)), w')
unfolding node
send_aggregated_oracle_response-reads_example =
    send_aggregated_oracle_response-reads bind sender 9 node own contract_request at_5 stakes
      no_prices "bitcoin" refl has_signed sent_well accepted

respond-stored_example :
    let agg' = (process_signed_oracle_response abi service signed (ok 11) fresh).1 in
    let w' =
      (send_aggregated_oracle_response_to_contract
        (λ x. x)
        (oracle_tx bind sender 9)
        answer
        agg'
        no_prices).1 in
    Reads.price bind (handle_of 9).caller tt "bitcoin" w'
    ≡ (returned (ok signed.price_response), w')
unfolding new_aggregator node oracle_request non_signer_stakes_and_signature
respond-stored_example =
    respond-stored bind sender 9 tt checker node own abi float sign_message (1 ∷ []) service
      (λ x. x) "bitcoin" (ok 5) (web 42) signed 11 fresh digest answer no_prices at_5 responds
      has_digest none_before taken refl index_zero refl refl refl has_signed sent_well accepted
