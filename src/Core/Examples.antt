-- ===== src/Core/Examples.antt =====
-- A concrete encoding and configuration, and the theorems on them.
use blockless_avs_tools.Base.{
  ℕ, ◌*◌, ◌>>=◌, ap, sym, subst, ◌∙◌, Bool-cases, inl, inr, arith, String, Result, List, [], ◌∷◌,
  none, some, false, ok, err, message, ◌≡◌, refl, pos, replicate, length, returned, if◌then◌else◌,
  ◌==◌, string_eq,
}
use blockless_avs_tools.Bindings.{Price}
use blockless_avs_tools.Core.Digest.{
  AbiLib, ArgumentMarshaling, price_components, copy, abi_encode_price_response, get_price_digest,
}
use blockless_avs_tools.Core.Digest.Laws.{HasTupleType, length-copy, get_price_digest-injective}
use blockless_avs_tools.Core.Config.{
  Config, ConfigLib, Flags, info_level, new_config, validate, new_zero_logger, strip_hex_prefix,
}
use blockless_avs_tools.Base.Calls

-- A price is encoded by its timestamp, if it has an amount.
abbrev pub abi : AbiLib (Unit {0})
abi = record {
  new_type = λ t n cs. ok tt;
  pack = λ types p. elim p.price [ some _ ↦ ok (p.timestamp ∷ []) | none ↦ err (message "nil") ];
  keccak256 = λ bytes. copy (replicate 32 0) bytes;
}

-- A type is the list of its components, and a price is encoded by those that the type names. The
-- symbols other than bitcoin have no encoding.
abbrev component : String → Price → Result ℕ
component name p =
    if name == "symbol"
    then (if p.symbol == "bitcoin" then ok 1 else err (message "unknown symbol"))
    else if name == "price"
    then elim p.price [ some (pos n) ↦ ok n | _ ↦ err (message "no amount") ]
    else if name == "timestamp"
    then ok p.timestamp
    else err (message "no such field")

abbrev pack_components : List ArgumentMarshaling → Price → Result (List ℕ)
pack_components [] p = ok []
pack_components (c ∷ cs) p = do x ← component c.name p; xs ← pack_components cs p; ok (x ∷ xs)

abbrev by_components : AbiLib (List ArgumentMarshaling)
by_components = record {
  new_type = λ t n cs. ok cs;
  pack = λ types p. elim types [ cs ∷ [] ↦ pack_components cs p | _ ↦ err (message "types") ];
  keccak256 = λ bytes. copy (replicate 32 0) bytes;
}

abbrev bitcoin_at : ℕ → ℕ → Price
bitcoin_at amount time = record { symbol = "bitcoin"; price = some (pos amount); timestamp = time }

size : (bytes : List ℕ) → length (by_components.keccak256 bytes) ≡ 32
size bytes = length-copy (replicate 32 0) bytes

-- Nothing of a price is lost.
packed_as :
    (x : Price) (n : ℕ) (bytes : List ℕ)
    → x.price ≡ some (pos n)
    → pack_components price_components x ≡ ok bytes
    → (x ≡ bitcoin_at n x.timestamp) × (bytes ≡ 1 ∷ n ∷ x.timestamp ∷ [])
packed_as x n bytes e h = elim (Bool-cases (x.symbol == "bitcoin")) [
  | inl known ↦
      let named = (string_eq.beq_iff x.symbol "bitcoin").0 known in
      (
        ap (λ s. record { symbol = s; price = x.price; timestamp = x.timestamp }) named
            ∙ ap (λ a. record { symbol = "bitcoin"; price = a; timestamp = x.timestamp }) e,
        ground arith,
      )
  | inr unknown ↦ absurd (ground arith)
]

packs :
    (t : List ArgumentMarshaling)
    → by_components.new_type "tuple" "" price_components ≡ ok t
    → (x y : Price) (bytes : List ℕ) → HasTupleType x
    → HasTupleType y
    → by_components.pack (t ∷ []) x ≡ ok bytes
    → by_components.pack (t ∷ []) y ≡ ok bytes
    → x ≡ y
packs t is_tuple x y bytes (n, amount_x, _, _) (m, amount_y, _, _) pack_x pack_y =
    let tuple : price_components ≡ t = ground arith in
    let as_tuple : (z : Price)
        → pack_components t z ≡ ok bytes
        → pack_components price_components z ≡ ok bytes =
      λ z. subst (λ cs. pack_components cs z ≡ ok bytes) (sym tuple) in
    let (is_x, bytes_x) = packed_as x n bytes amount_x (as_tuple x pack_x) in
    let (is_y, bytes_y) = packed_as y m bytes amount_y (as_tuple y pack_y) in
    let one_amount : n ≡ m = ground arith in
    let one_time : x.timestamp ≡ y.timestamp = ground arith in
    is_x
    ∙ ap (λ k. bitcoin_at k x.timestamp) one_amount
    ∙ ap (λ k. bitcoin_at m k) one_time
    ∙ sym is_y

digest_of :
    get_price_digest by_components (bitcoin_at 42_000_000 5)
    ≡ ok (1 ∷ 42_000_000 ∷ 5 ∷ replicate 29 0)
unfolding get_price_digest abi_encode_price_response
digest_of = refl

one_encoding :
    (a b : List ℕ)
    → abi_encode_price_response by_components (bitcoin_at 42_000_000 5) ≡ ok a
    → abi_encode_price_response by_components (bitcoin_at (42 * 1_000_000) 5) ≡ ok b
    → by_components.keccak256 a ≡ by_components.keccak256 b
    → a ≡ b
one_encoding a b e f same = cc

get_price_digest-injective_example : bitcoin_at 42_000_000 5 ≡ bitcoin_at (42 * 1_000_000) 5
get_price_digest-injective_example =
    get_price_digest-injective by_components (bitcoin_at 42_000_000 5)
      (bitcoin_at (42 * 1_000_000) 5) size one_encoding packs
      (42_000_000, refl, omega arith, omega arith) (42_000_000, refl, omega arith, omega arith)
      digest_of digest_of

-- Deployed contracts at addresses 1 and 2; every client and key is accepted.
abbrev config_lib : ConfigLib ℕ ℕ (List ℕ) ℕ ℕ ℕ
config_lib = record {
  read_yaml_config = λ path raw w. record raw { environment = "production" };
  not_exist = λ path w. false;
  read_json_config =
      λ path w. record { registry_coordinator_addr = "0x1"; operator_state_retriever_addr = "0x2" };
  new_client = λ url w. (ok 0, w);
  hex_to_ecdsa = λ s. ok s;
  ecdsa_private_key_to_address = λ key. ok 3;
  chain_id = λ client w. (ok 17000, w);
  signer_from_config = λ key chain. ok 4;
  new_private_key_wallet = λ client signer addr. ok 5;
  new_simple_tx_manager = λ wallet client addr. 6;
  hex_to_address = λ s. if s == "0x1" then 1 else if s == "0x2" then 2 else 0;
}

abbrev flags : Flags
flags = record {
  config = "aggregator.yaml";
  blockless_avs_deployment = "deployment.json";
  ecdsa_private_key = 48 ∷ 120 ∷ 97 ∷ [];
}

abbrev config : Config ℕ (List ℕ) ℕ ℕ
config = record {
  ecdsa_private_key = 97 ∷ [];
  logger = info_level;
  eth_http_rpc_url = "";
  eth_ws_rpc_url = "";
  eth_http_client = 0;
  eth_ws_client = 0;
  operator_state_retriever_addr = 2;
  registry_coordinator_addr = 1;
  aggregator_server_ip_port_addr = "";
  register_operator_on_startup = false;
  signer_fn = 4;
  tx_mgr = 6;
  aggregator_address = 3;
}

made : new_config config_lib flags 0 ≡ (returned (ok config), 0)
unfolding new_config validate new_zero_logger strip_hex_prefix Calls.◌>>=◌
made = refl
