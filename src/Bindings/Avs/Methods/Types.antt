-- ===== src/Bindings/Avs/Methods/Types.antt =====
-- No caller of the binding panics on what a contract with its ABI returns.
use blockless_avs_tools.Base.{
  ◌≡◌, ◌≢◌, refl, ℕ, String, List, [], ◌∷◌, map, Option, some, GoError, Result, ok, panicked,
  Outcome, arith, lookup, string_eq, inl, inr, Result-cases, ◌∙◌,
}
use blockless_avs_tools.Base.Calls.{◌>>=◌}
use blockless_avs_tools.Bindings.{Bn254G1Point, Bn254G2Point, NonSignerStakesAndSignature}
use blockless_avs_tools.Bindings.Values.{
  Any, Bind, call_one, bytes, bytes32, text, uint32, g1_struct, g2_struct, stakes_struct,
}
use blockless_avs_tools.Bindings.Handles.{Caller}
use blockless_avs_tools.Bindings.Abi.{Signature, type_of, AnswersAbi, Converts, ConvertsOwnTypes}
use blockless_avs_tools.Bindings.Abi.Laws.{
  to_uint32-Converts, to_address-Converts, to_big_int-Converts, to_boolean-Converts,
  to_text-Converts, to_bytes32-Converts, to_addresses-Converts, to_price-Converts,
  to_stake_totals-Converts,
}
use blockless_avs_tools.Bindings.Avs.Reads
use blockless_avs_tools.Bindings.Avs.Methods.{
  avs_abi, Read, read_block_stale_measure, read_aggregator, read_avs_directory,
  read_bls_apk_registry, read_check_signatures, read_delegation,
  read_get_operator_restaked_strategies, read_get_restakeable_strategies, read_owner, read_paused,
  read_paused0, read_pauser_registry, read_price, read_prices, read_registry_coordinator,
  read_stake_registry, read_stale_stakes_forbidden, read_try_signature_and_apk_verification, ask,
}

abbrev Safe : {A : Type 0} → Outcome (Result A) → Type 0
Safe o = (e : GoError) → o ≢ panicked e

-- A list of values of one type has one value.
one_value :
    (out : List Any) (t : String)
    → map type_of out ≡ t ∷ []
    → (v : Any) × (out ≡ v ∷ []) × (type_of v ≡ t)
one_value [] t h = absurd (ground arith)
one_value (v ∷ []) t h = (v, refl, ground arith)
one_value (v ∷ _ ∷ _) t h = absurd (ground arith)

two_values :
    (out : List Any) (s t : String)
    → map type_of out ≡ s ∷ t ∷ []
    → (u : Any) × (v : Any) × (out ≡ u ∷ v ∷ []) × (type_of u ≡ s) × (type_of v ≡ t)
two_values [] s t h = absurd (ground arith)
two_values (u ∷ rest) s t h =
    let (v, same, own) = one_value rest t (ground arith) in (u, v, ground arith, ground arith, own)

three_values :
    (out : List Any) (r s t : String)
    → map type_of out ≡ r ∷ s ∷ t ∷ []
    → (u : Any) × (v : Any) × (x : Any) × (out ≡ u ∷ v ∷ x ∷ [])
      × (type_of u ≡ r)
      × (type_of v ≡ s)
      × (type_of x ≡ t)
three_values [] r s t h = absurd (ground arith)
three_values (u ∷ rest) r s t h =
    let (v, x, same, own_v, own_x) = two_values rest s t (ground arith) in
    (u, v, x, ground arith, ground arith, own_v, own_x)

module _ {W Bound CallOpts TransactOpts Transaction : Type 0}
    (lib : Bind W Bound CallOpts TransactOpts Transaction) where
  call_one-Safe :
      {A : Type 0} (contract : Bound) (opts : CallOpts) (method : String) (args : List Any)
      (convert : Any → Option A) (w : W) {signature : Signature} {t : String}
      → AnswersAbi lib avs_abi
      → lookup method avs_abi ≡ some signature
      → signature.outputs ≡ t ∷ []
      → Converts t convert
      → Safe (call_one lib contract opts method args convert w).0
  unfolding ◌>>=◌
  call_one-Safe contract opts method args convert w {signature} {t} answers found one converts e =
      elim (Result-cases (lib.call contract opts method args w).0) [
        | inl (out, good) ↦
            let w' = (lib.call contract opts method args w).1 in
            let ran : lib.call contract opts method args w ≡ (ok out, w') = ground arith in
            let types : map type_of out ≡ t ∷ [] =
              answers contract opts method args out w w' signature found ran ∙ one in
            let (v, same, own) = one_value out t types in
            let (a, converted) = converts v own in rw (ran, same, converted) (λ bad. cc)
        | inr (_, bad) ↦ ground arith
      ]

  -- The values that a successful call returned.
  outputs_of :
      (contract : Bound) (opts : CallOpts) (method : String) (args : List Any) (w : W)
      {signature : Signature} {out : List Any}
      → AnswersAbi lib avs_abi
      → lookup method avs_abi ≡ some signature
      → (lib.call contract opts method args w).0 ≡ ok out
      → map type_of out ≡ signature.outputs
  outputs_of contract opts method args w {signature} {out} answers found good =
      let w' = (lib.call contract opts method args w).1 in
      let ran : lib.call contract opts method args w ≡ (ok out, w') = ground arith in
      answers contract opts method args out w w' signature found ran

  check_signatures-Safe :
      (c : Caller Bound) (opts : CallOpts) (x0 : List ℕ) (x1 : List ℕ) (x2 : ℕ)
      (x3 : NonSignerStakesAndSignature) (w : W)
      → AnswersAbi lib avs_abi
      → ConvertsOwnTypes lib.convert_type
      → Safe (Reads.check_signatures lib c opts x0 x1 x2 x3 w).0
  unfolding Reads.check_signatures ◌>>=◌
  check_signatures-Safe c opts x0 x1 x2 x3 w answers own e =
      let args : List Any = bytes32 x0 ∷ bytes x1 ∷ uint32 x2 ∷ stakes_struct x3 ∷ [] in
      elim (Result-cases (lib.call (c.contract) opts "checkSignatures" args w).0) [
        | inl (out, good) ↦
            let types : map type_of out
                ≡ "structIBLSSignatureChecker.QuorumStakeTotals" ∷ "bytes32" ∷ [] =
              outputs_of (c.contract) opts "checkSignatures" args w answers refl good in
            let (v0, v1, same, own0, own1) = two_values out _ _ types in
            let (a0, converted0) = to_stake_totals-Converts own v0 own0 in
            let (a1, converted1) = to_bytes32-Converts own v1 own1 in
            rw (good, same, converted0, converted1) (λ bad. cc)
        | inr (_, bad) ↦ ground arith
      ]

  prices-Safe :
      (c : Caller Bound) (opts : CallOpts) (x0 : String) (w : W)
      → AnswersAbi lib avs_abi
      → ConvertsOwnTypes lib.convert_type
      → Safe (Reads.prices lib c opts x0 w).0
  unfolding Reads.prices ◌>>=◌
  prices-Safe c opts x0 w answers own e =
      let args : List Any = text x0 ∷ [] in
      elim (Result-cases (lib.call (c.contract) opts "prices" args w).0) [
        | inl (out, good) ↦
            let types : map type_of out ≡ "string" ∷ "uint256" ∷ "uint32" ∷ [] =
              outputs_of (c.contract) opts "prices" args w answers refl good in
            let (v0, v1, v2, same, own0, own1, own2) = three_values out _ _ _ types in
            let (a0, converted0) = to_text-Converts own v0 own0 in
            let (a1, converted1) = to_big_int-Converts own v1 own1 in
            let (a2, converted2) = to_uint32-Converts own v2 own2 in
            rw (good, same, converted0, converted1, converted2) (λ bad. cc)
        | inr (_, bad) ↦ ground arith
      ]

  try_signature_and_apk_verification-Safe :
      (c : Caller Bound) (opts : CallOpts) (x0 : List ℕ) (x1 : Bn254G1Point) (x2 : Bn254G2Point)
      (x3 : Bn254G1Point) (w : W)
      → AnswersAbi lib avs_abi
      → ConvertsOwnTypes lib.convert_type
      → Safe (Reads.try_signature_and_apk_verification lib c opts x0 x1 x2 x3 w).0
  unfolding Reads.try_signature_and_apk_verification ◌>>=◌
  try_signature_and_apk_verification-Safe c opts x0 x1 x2 x3 w answers own e =
      let args : List Any = bytes32 x0 ∷ g1_struct x1 ∷ g2_struct x2 ∷ g1_struct x3 ∷ [] in
      elim (Result-cases (lib.call (c.contract) opts "trySignatureAndApkVerification" args w).0) [
        | inl (out, good) ↦
            let types : map type_of out ≡ "bool" ∷ "bool" ∷ [] =
              outputs_of (c.contract) opts "trySignatureAndApkVerification" args w answers refl
                good in
            let (v0, v1, same, own0, own1) = two_values out _ _ types in
            let (a0, converted0) = to_boolean-Converts own v0 own0 in
            let (a1, converted1) = to_boolean-Converts own v1 own1 in
            rw (good, same, converted0, converted1) (λ bad. cc)
        | inr (_, bad) ↦ ground arith
      ]

  -- Whatever values of its ABI's types the contract returns, no caller of the binding panics: not where
  -- it takes the results of the call, and not where it converts them. This rests on ConvertType to
  -- convert a value to its own type.
  pub ask-never_panics :
      (c : Caller Bound) (opts : CallOpts) (m : Read) (w : W) (e : GoError)
      → AnswersAbi lib avs_abi
      → ConvertsOwnTypes lib.convert_type
      → (ask lib c opts m w).0 ≢ panicked e
  unfolding Reads.block_stale_measure Reads.aggregator Reads.avs_directory Reads.bls_apk_registry
      Reads.delegation Reads.get_operator_restaked_strategies Reads.get_restakeable_strategies
      Reads.owner Reads.paused Reads.paused0 Reads.pauser_registry Reads.price
      Reads.registry_coordinator Reads.stake_registry Reads.stale_stakes_forbidden
  ask-never_panics c opts read_block_stale_measure w e answers own =
      call_one-Safe (c.contract) opts _ _ _ w answers refl refl (to_uint32-Converts own) e
  ask-never_panics c opts read_aggregator w e answers own =
      call_one-Safe (c.contract) opts _ _ _ w answers refl refl (to_address-Converts own) e
  ask-never_panics c opts read_avs_directory w e answers own =
      call_one-Safe (c.contract) opts _ _ _ w answers refl refl (to_address-Converts own) e
  ask-never_panics c opts read_bls_apk_registry w e answers own =
      call_one-Safe (c.contract) opts _ _ _ w answers refl refl (to_address-Converts own) e
  ask-never_panics c opts (read_check_signatures x0 x1 x2 x3) w e answers own =
      check_signatures-Safe c opts x0 x1 x2 x3 w answers own e
  ask-never_panics c opts read_delegation w e answers own =
      call_one-Safe (c.contract) opts _ _ _ w answers refl refl (to_address-Converts own) e
  ask-never_panics c opts (read_get_operator_restaked_strategies x0) w e answers own =
      call_one-Safe (c.contract) opts _ _ _ w answers refl refl (to_addresses-Converts own) e
  ask-never_panics c opts read_get_restakeable_strategies w e answers own =
      call_one-Safe (c.contract) opts _ _ _ w answers refl refl (to_addresses-Converts own) e
  ask-never_panics c opts read_owner w e answers own =
      call_one-Safe (c.contract) opts _ _ _ w answers refl refl (to_address-Converts own) e
  ask-never_panics c opts (read_paused x0) w e answers own =
      call_one-Safe (c.contract) opts _ _ _ w answers refl refl (to_boolean-Converts own) e
  ask-never_panics c opts read_paused0 w e answers own =
      call_one-Safe (c.contract) opts _ _ _ w answers refl refl (to_big_int-Converts own) e
  ask-never_panics c opts read_pauser_registry w e answers own =
      call_one-Safe (c.contract) opts _ _ _ w answers refl refl (to_address-Converts own) e
  ask-never_panics c opts (read_price x0) w e answers own =
      call_one-Safe (c.contract) opts _ _ _ w answers refl refl (to_price-Converts own) e
  ask-never_panics c opts (read_prices x0) w e answers own = prices-Safe c opts x0 w answers own e
  ask-never_panics c opts read_registry_coordinator w e answers own =
      call_one-Safe (c.contract) opts _ _ _ w answers refl refl (to_address-Converts own) e
  ask-never_panics c opts read_stake_registry w e answers own =
      call_one-Safe (c.contract) opts _ _ _ w answers refl refl (to_address-Converts own) e
  ask-never_panics c opts read_stale_stakes_forbidden w e answers own =
      call_one-Safe (c.contract) opts _ _ _ w answers refl refl (to_boolean-Converts own) e
  ask-never_panics c opts (read_try_signature_and_apk_verification x0 x1 x2 x3) w e answers own =
      try_signature_and_apk_verification-Safe c opts x0 x1 x2 x3 w answers own e
