-- ===== src/Chainio/Writer/Deployed.antt =====
-- The writer over the generated binding and a node that runs the contract.
use blockless_avs_tools.Base.{
  ◌≡◌, refl, ap, sym, ◌∙◌, String, [], ◌∷◌, ok, returned, arith, string_eq, subst, Bool-cases,
  if◌then◌else◌, ◌==◌,
}
use blockless_avs_tools.Base.Effects.{Effect}
use blockless_avs_tools.Base.Calls.{◌>>=◌}
use blockless_avs_tools.Bindings.{Price, OracleRequest, NonSignerStakesAndSignature}
use blockless_avs_tools.Bindings.Values.{Bind, text, request_struct, price_struct, stakes_struct}
use blockless_avs_tools.Bindings.Handles.{handle_of}
use blockless_avs_tools.Bindings.Abi.{ConvertsOwnTypes}
use blockless_avs_tools.Bindings.Avs.Reads
use blockless_avs_tools.Bindings.Avs.Writes
use blockless_avs_tools.Bindings.Avs.Chain.{go_price, storage_after}
use blockless_avs_tools.Contract
use blockless_avs_tools.Contract.{OnchainPrice, Storage, Env, OracleUpdate, Checker, done}
use blockless_avs_tools.Contract.Update.{price-update_oracle_price}
use blockless_avs_tools.Chainio.Writer.{OracleTx, send_aggregated_oracle_response}

-- The SDK's `TxManager`.
pub record TxManager (W TransactOpts Transaction Receipt : Type 0) : Type 0 where
  pub get_no_send_tx_opts : Effect W TransactOpts
  pub send : Transaction → Effect W Receipt

-- Where the options and the transaction can be had, the writer sends the transaction.
send_aggregated_oracle_response-send :
    {W Opts Tx Receipt : Type 0} (tx_mgr : OracleTx W Opts Tx Receipt) (req : OracleRequest)
    (price : Price) (stakes : NonSignerStakesAndSignature) (w : W) {opts : Opts} {w₁ : W} {tx : Tx}
    {w₂ : W}
    → tx_mgr.get_no_send_tx_opts w ≡ (ok opts, w₁)
    → tx_mgr.update_oracle_price opts req price stakes w₁ ≡ (ok tx, w₂)
    → send_aggregated_oracle_response tx_mgr req price stakes w ≡ tx_mgr.send tx w₂
unfolding send_aggregated_oracle_response
send_aggregated_oracle_response-send tx_mgr req price stakes w opened signed = ground arith

module _ {W Bound CallOpts TransactOpts Transaction Receipt : Type 0}
    (lib : Bind W Bound CallOpts TransactOpts Transaction)
    (tx_mgr : TxManager W TransactOpts Transaction Receipt) (contract : Bound) where
  -- The writer's calls, `UpdateOraclePrice` being the binding's.
  abbrev pub oracle_tx : OracleTx W TransactOpts Transaction Receipt
  oracle_tx = record {
    get_no_send_tx_opts = tx_mgr.get_no_send_tx_opts;
    update_oracle_price = Writes.update_oracle_price lib (handle_of contract).transactor;
    send = tx_mgr.send;
  }

  -- A transaction that is signed with the options of `GetNoSendTxOpts` changes nothing; when `Send`
  -- returns its receipt, the contract's function has run in the environment of its block. Nothing is
  -- said of a `Send` that fails. A call reads the storage.
  pub record IsNode (latest : CallOpts) (checker : Checker) : Type 0 where
    pub storage : W → Storage
    pub env : W → Env
    pub call_price :
        (symbol : String) (w : W)
        → lib.call contract latest "price" (text symbol ∷ []) w
          ≡ (ok (price_struct (go_price (Contract.price symbol (storage w))) ∷ []), w)
    pub opts_keep :
        (w : W) (opts : TransactOpts) (w₁ : W)
        → tx_mgr.get_no_send_tx_opts w ≡ (ok opts, w₁)
        → (storage w₁ ≡ storage w) × (env w₁ ≡ env w)
    pub sign_keep :
        (opts : TransactOpts) (req : OracleRequest) (p : OnchainPrice)
        (stakes : NonSignerStakesAndSignature) (w : W) (tx : Transaction) (w₁ : W)
        → lib.transact contract opts "updateOraclePrice"
            (request_struct req ∷ price_struct (go_price p) ∷ stakes_struct stakes ∷ [])
            w
          ≡ (ok tx, w₁)
        → (storage w₁ ≡ storage w) × (env w₁ ≡ env w)
    pub send_runs :
        (opts : TransactOpts) (req : OracleRequest) (p : OnchainPrice)
        (stakes : NonSignerStakesAndSignature) (w : W) (tx : Transaction) (w₁ : W)
        (receipt : Receipt) (w₂ : W)
        → lib.transact contract opts "updateOraclePrice"
            (request_struct req ∷ price_struct (go_price p) ∷ stakes_struct stakes ∷ [])
            w
          ≡ (ok tx, w₁)
        → tx_mgr.send tx w₁ ≡ (ok receipt, w₂)
        → storage w₂
          ≡ storage_after
              (Contract.update_oracle_price checker (env w₁) req p stakes (storage w₁))
              (storage w₁)

  module _ {latest : CallOpts} {checker : Checker} (node : IsNode latest checker)
      (own : ConvertsOwnTypes lib.convert_type) where
    -- What the binding reads.
    price-stored :
        (symbol : String) (w : W)
        → Reads.price lib (handle_of contract).caller latest symbol w
          ≡ (returned (ok (go_price (Contract.price symbol (node.storage w)))), w)
    unfolding Reads.price ◌>>=◌
    price-stored symbol w = ground (
      arith,
      node.call_price symbol w,
      own.own_price (go_price (Contract.price symbol (node.storage w))),
    )

    -- If the options and the transaction can be had, the contract accepts the price and Send returns
    -- the receipt, then after the writer's call Price() returns the price for its symbol and, for
    -- every other symbol, what it returned before.
    pub send_aggregated_oracle_response-reads :
        (req : OracleRequest) (p : OnchainPrice) (stakes : NonSignerStakesAndSignature) (w : W)
        (symbol : String) {opts : TransactOpts} {w₁ : W} {tx : Transaction} {w₂ : W}
        {receipt : Receipt} {w₃ : W} {r : Storage × OracleUpdate}
        → tx_mgr.get_no_send_tx_opts w ≡ (ok opts, w₁)
        → Writes.update_oracle_price lib
            (handle_of contract).transactor
            opts
            req
            (go_price p)
            stakes
            w₁
          ≡ (ok tx, w₂)
        → tx_mgr.send tx w₂ ≡ (ok receipt, w₃)
        → Contract.update_oracle_price checker (node.env w) req p stakes (node.storage w) ≡ done r
        → let w' = (send_aggregated_oracle_response oracle_tx req (go_price p) stakes w).1 in
          Reads.price lib (handle_of contract).caller latest symbol w' ≡ (
            returned (
                ok (
                  if p.symbol == symbol
                  then go_price p
                  else go_price (Contract.price symbol (node.storage w)))),
            w',
          )
    unfolding Writes.update_oracle_price
    send_aggregated_oracle_response-reads req p stakes w symbol {opts} {w₁} {tx} {w₂} {receipt} {w₃}
          {r} opened signed sent accepted =
        let (storage₁, env₁) = node.opts_keep w opts w₁ opened in
        let (storage₂, env₂) = node.sign_keep opts req p stakes w₁ tx w₂ signed in
        let run = node.send_runs opts req p stakes w₁ tx w₂ receipt w₃ signed sent in
        let stored : node.storage w₃ ≡ r.0 =
          rw (run, env₂, env₁, storage₂, storage₁, accepted) refl in
        let updated =
          price-update_oracle_price checker (node.env w) req p stakes (node.storage w) symbol
            accepted in
        let ran : (send_aggregated_oracle_response oracle_tx req (go_price p) stakes w).1 ≡ w₃ =
          ap (λ x. x.1)
            (send_aggregated_oracle_response-send oracle_tx req (go_price p) stakes w opened signed
              ∙ sent) in
        let latest_price = ap (Contract.price symbol) stored ∙ updated.0 in
        let read = price-stored symbol w₃ in
        let found : Reads.price lib (handle_of contract).caller latest symbol w₃ ≡ (
          returned (
              ok (
                if p.symbol == symbol
                then go_price p
                else go_price (Contract.price symbol (node.storage w)))),
          w₃,
        ) =
          ground (arith, read, latest_price, Bool-cases (p.symbol == symbol)) in
        subst
          (λ v. Reads.price lib (handle_of contract).caller latest symbol v ≡ (
            returned (
                ok (
                  if p.symbol == symbol
                  then go_price p
                  else go_price (Contract.price symbol (node.storage w)))),
            v,
          ))
          (sym ran) found
