-- ===== src/Core/Config/Laws.antt =====
-- Which configurations `NewConfig` lets through.
use blockless_avs_tools.Base.{
  ℕ, List, [], ◌∷◌, length, ok, returned, panicked, GoError, ◌≡◌, ◌≢◌, ◌<◌, arith, refl, false,
  Bool-cases, inl, inr, ◌==◌, ==_refl, nat_eq, ◌⊎◌, string_eq, String, ap,
}
use blockless_avs_tools.Base.Calls.{pure, ◌>>=◌, >>=-eq-returned, Ensures, then}
use blockless_avs_tools.Core.Config.{
  Config, ConfigLib, ConfigRaw, Level, Flags, validate, new_config, read_config_raw,
  new_zero_logger, strip_hex_prefix,
}

-- A key's text that starts with 0x gives what follows the prefix, and one that does not gives
-- itself, so a text and its prefixed form lead to the same key; a text of less than two bytes
-- panics.
pub strip_hex_prefix_lem :
    (s : List ℕ)
    → (strip_hex_prefix (48 ∷ 120 ∷ s) ≡ returned (ok s))
      × (length s < 2 → (e : GoError) × (strip_hex_prefix s ≡ panicked e))
unfolding strip_hex_prefix
strip_hex_prefix_lem [] = (refl, λ _. (_, refl))
strip_hex_prefix_lem (a ∷ []) = (refl, λ _. (_, refl))
strip_hex_prefix_lem (a ∷ b ∷ s) = (refl, λ p. ground arith)

beq-false : (a b : ℕ) → (a == b) ≡ false → a ≢ b
beq-false a b p e = ground (arith, ==_refl a)

new_zero_logger-environment :
    (environment : String) {level : Level}
    → new_zero_logger environment ≡ returned (ok level)
    → (environment ≡ "production") ⊎ (environment ≡ "development")
unfolding new_zero_logger
new_zero_logger-environment environment h = elim (Bool-cases (environment == "production")) [
  | inl same ↦ inl ((string_eq.beq_iff environment "production").0 same)
  | inr other ↦ elim (Bool-cases (environment == "development")) [
    | inl same ↦ inr ((string_eq.beq_iff environment "development").0 same)
    | inr unknown ↦ absurd (ground arith)
  ]
]

module _ {W Client Key Signer Wallet TxMgr : Type 0}
    (lib : ConfigLib W Client Key Signer Wallet TxMgr) where
  HasAddresses : Config Client Key Signer TxMgr → W → Type 0
  HasAddresses c _ =
      (c.operator_state_retriever_addr ≢ lib.hex_to_address "")
      × (c.registry_coordinator_addr ≢ lib.hex_to_address "")

  validate_lem :
      (c : Config Client Key Signer TxMgr)
      → Ensures HasAddresses (λ w. (validate lib c >>= λ _. pure c) w)
  unfolding validate HasAddresses ◌>>=◌
  validate_lem c w w' b e =
      let none_set = lib.hex_to_address "" in
      elim (Bool-cases (c.operator_state_retriever_addr == none_set)) [
        | inl p ↦ ground arith
        | inr p ↦ elim (Bool-cases (c.registry_coordinator_addr == none_set)) [
          | inl q ↦ ground arith
          | inr q ↦ let n = beq-false _ _ p in let m = beq-false _ _ q in ground arith
        ]
      ]

  -- A configuration that is returned has both contract addresses set.
  pub new_config-addresses :
      (flags : Flags) (c : Config Client Key Signer TxMgr) (w w' : W)
      → new_config lib flags w ≡ (returned (ok c), w')
      → (c.operator_state_retriever_addr ≢ lib.hex_to_address "")
        × (c.registry_coordinator_addr ≢ lib.hex_to_address "")
  unfolding new_config HasAddresses
  new_config-addresses flags c w w' e =
      let after : Ensures HasAddresses (new_config lib flags) = then _ _ λ _. then _ _ λ _.
        then _ _ λ _. then _ _ λ _. then _ _ λ _. then _ _ λ _.
          then _ _ λ _. then _ _ λ _. then _ _ λ _. then _ _ λ _. then _ _ λ _. validate_lem _ in
      after w w' c e

  -- And its file named one of the two environments: the empty name, which a file without the field
  -- leaves, panics.
  pub new_config-environment :
      (flags : Flags) (c : Config Client Key Signer TxMgr) (w w' : W)
      → new_config lib flags w ≡ (returned (ok c), w')
      → (raw : ConfigRaw) × (w₁ : W) × (read_config_raw lib flags.config w
          ≡ (returned (ok raw), w₁))
        × ((raw.environment ≡ "production") ⊎ (raw.environment ≡ "development"))
  unfolding new_config
  new_config-environment flags c w w' e =
      let (raw, w₁, read, after_raw) = >>=-eq-returned _ _ w e in
      let (addresses, w₂, deployed, after_deployed) = >>=-eq-returned _ _ w₁ after_raw in
      let (logger, w₃, logged, _) = >>=-eq-returned _ _ w₂ after_deployed in
      (raw, w₁, read, new_zero_logger-environment raw.environment (ap (λ x. x.0) logged))
