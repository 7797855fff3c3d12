-- ===== src/Aggregator/Sections/Examples.antt =====
-- One call from its arrival to its end, and the completion of its task.
use blockless_avs_tools.Base.{
  ℕ, ◌+◌, List, [], ◌∷◌, none, ok, returned, ◌≡◌, ◌<◌, ◌^◌, refl, inl, nat_eq, bytes_eq,
}
use blockless_avs_tools.Bindings.{Price, OracleRequest}
use blockless_avs_tools.Core.Digest.{abi_encode_price_response, get_price_digest}
use blockless_avs_tools.Core.Examples.{abi}
use blockless_avs_tools.Chainio.Writer.{OracleTx, send_aggregated_oracle_response}
use blockless_avs_tools.Aggregator.State.{new_aggregator}
use blockless_avs_tools.Aggregator.Send.{
  BlsAggregationServiceResponse, non_signer_stakes_and_signature,
  send_aggregated_oracle_response_to_contract,
}
use blockless_avs_tools.Aggregator.Examples.{service, signed, digest_of, moved}
use blockless_avs_tools.Aggregator.Sections.{
  Phase, System, received, arrive, move, advance, advance_many,
}
use blockless_avs_tools.Aggregator.Sections.Termination.{Steps, rest, more}
use blockless_avs_tools.Aggregator.Sections.Completion.{WasHandedOver, completed-sends_request}

abbrev phase : ℕ → Phase ℕ
phase n = (advance_many abi service n (ok 11) (received (signed 5), new_aggregator [])).0

abbrev idle : System abi service
idle = record { agg = new_aggregator []; calls = [] }

-- The call arrives and makes its six moves.
abbrev whole_call : Steps abi service idle (moved 6)
unfolding advance_many advance get_price_digest abi_encode_price_response
whole_call =
    let s0 = more (rest idle) (arrive idle (signed 5)) in
    let s1 = more s0 (move (moved 0) 0 (phase 0) (ok 11) refl) in
    let s2 = more s1 (move (moved 1) 0 (phase 1) (ok 11) refl) in
    let s3 = more s2 (move (moved 2) 0 (phase 2) (ok 11) refl) in
    let s4 = more s3 (move (moved 3) 0 (phase 3) (ok 11) refl) in
    let s5 = more s4 (move (moved 4) 0 (phase 4) (ok 11) refl) in
    more s5 (move (moved 5) 0 (phase 5) (ok 11) refl)

abbrev answer : BlsAggregationServiceResponse ℕ
answer = record {
  service_err = none;
  task_index = 0;
  task_response_digest = digest_of 5;
  non_signers_pubkeys_g1 = [];
  quorum_apks_g1 = record { x = 1; y = 2 } ∷ [];
  signers_apk_g2 = record { x = record { a0 = 3; a1 = 4 }; y = record { a0 = 5; a1 = 6 } };
  signers_agg_sig_g1 = record { x = 7; y = 8 };
  non_signer_quorum_bitmap_indices = [];
  quorum_apk_indices = 0 ∷ [];
  total_stake_indices = 0 ∷ [];
  non_signer_stake_indices = [];
}

-- A chain that counts the transactions.
abbrev tx_mgr : OracleTx ℕ ℕ ℕ ℕ
tx_mgr = record {
  get_no_send_tx_opts = λ w. (ok 0, w);
  update_oracle_price = λ opts request price stakes w. (ok 1, w);
  send = λ tx w. (ok 2, w + 1);
}

handed : WasHandedOver abi service whole_call 0 (digest_of 5)
unfolding advance_many advance get_price_digest abi_encode_price_response new_aggregator
handed = inl (refl, refl)

completed-sends_request_example :
    (req : OracleRequest) × (price : Price) × (p : Price) × (d : List ℕ)
    × (send_aggregated_oracle_response_to_contract (λ x. x) tx_mgr answer (moved 6).agg 0 ≡ (
      returned tt,
      (send_aggregated_oracle_response tx_mgr req price
          (non_signer_stakes_and_signature (λ x. x) answer)
          0).1,
    ))
    × (get_price_digest abi p ≡ ok (digest_of 5))
    × (req.symbol ≡ p.symbol)
    × (req.quorum_numbers ≡ 0 ∷ [])
    × (req.quorum_threshold_percentage ≡ 100)
    × (req.reference_block_number < 2 ^ 32)
    × (get_price_digest abi price ≡ ok d)
completed-sends_request_example =
    completed-sends_request abi service (λ x. x) tx_mgr [] whole_call answer 0 refl handed
