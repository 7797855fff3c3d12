-- ===== src/Chainio/Subscriber.antt =====
-- `SubscribeToOracleUpdateResponses` of core/chainio/avs_subscriber.go.
use blockless_avs_tools.Base.{Option, none, some, ok, err}
use blockless_avs_tools.Base.Effects.{Effect}

-- An error of `WatchOracleUpdate` is logged, and the nil subscription that came with it returned.
unfoldable pub subscribe_to_oracle_update_responses :
    {W Sub : Type 0} → Effect W Sub → W → Option Sub × W
subscribe_to_oracle_update_responses watch_oracle_update w =
    let (r, w') = watch_oracle_update w in elim r [ ok sub ↦ (some sub, w') | err _ ↦ (none, w') ]
