-- ===== src/Aggregator/Sections/Progress.antt =====
-- A call that nothing interrupts is the sequential endpoint.
use blockless_avs_tools.Base.{ℕ, Result, ◌≡◌, arith}
use blockless_avs_tools.Core.Digest.{AbiLib}
use blockless_avs_tools.Aggregator.State.{SignedOracleResponse, BlsService, Aggregator}
use blockless_avs_tools.Aggregator.Rpc.{process_signed_oracle_response}
use blockless_avs_tools.Aggregator.Sections.{received, finished, advance, advance_many}

module _ {T Sig S : Type 0} (lib : AbiLib T) (service : BlsService Sig S) where
  -- Six moves in a row of a call, from any state of the aggregator and with any answers of the
  -- service, end it with the result and the state of the sequential endpoint.
  pub advance_many-process_signed_oracle_response :
      (resp : SignedOracleResponse Sig) (block_number : Result ℕ) (agg : Aggregator S)
      → let (r, agg') = process_signed_oracle_response lib service resp block_number agg in
        advance_many lib service 6 block_number (received resp, agg) ≡ (finished r, agg')
  unfolding advance_many advance process_signed_oracle_response
  advance_many-process_signed_oracle_response resp block_number agg = ground arith
