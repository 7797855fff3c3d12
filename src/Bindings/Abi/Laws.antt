-- ===== src/Bindings/Abi/Laws.antt =====
-- A value converts where the ABI gives its type.
use blockless_avs_tools.Base.{◌≡◌, refl, arith, String, false, ◌==◌, string_eq}
use blockless_avs_tools.Bindings.Values.{
  Converters, uint32, address, big_int, boolean, text, bytes32, addresses, price_struct,
  totals_struct,
}
use blockless_avs_tools.Bindings.Abi.{Converts, ConvertsOwnTypes}

-- Two texts that differ are not equal.
differ : {A : Type 0} (a b : String) → (a == b) ≡ false → a ≡ b → A
differ a b other same = absurd (ground (arith, (string_eq.beq_iff a b).1 same))

module _ {convert_type : Converters} (own : ConvertsOwnTypes convert_type) where
  pub to_uint32-Converts : Converts "uint32" convert_type.to_uint32
  to_uint32-Converts (uint32 x) h = (x, own.own_uint32 x)
  to_uint32-Converts _ h = differ _ _ refl h

  pub to_address-Converts : Converts "address" convert_type.to_address
  to_address-Converts (address x) h = (x, own.own_address x)
  to_address-Converts _ h = differ _ _ refl h

  pub to_big_int-Converts : Converts "uint256" convert_type.to_big_int
  to_big_int-Converts (big_int x) h = (x, own.own_big_int x)
  to_big_int-Converts _ h = differ _ _ refl h

  pub to_boolean-Converts : Converts "bool" convert_type.to_boolean
  to_boolean-Converts (boolean x) h = (x, own.own_boolean x)
  to_boolean-Converts _ h = differ _ _ refl h

  pub to_text-Converts : Converts "string" convert_type.to_text
  to_text-Converts (text x) h = (x, own.own_text x)
  to_text-Converts _ h = differ _ _ refl h

  pub to_bytes32-Converts : Converts "bytes32" convert_type.to_bytes32
  to_bytes32-Converts (bytes32 x) h = (x, own.own_bytes32 x)
  to_bytes32-Converts _ h = differ _ _ refl h

  pub to_addresses-Converts : Converts "address[]" convert_type.to_addresses
  to_addresses-Converts (addresses x) h = (x, own.own_addresses x)
  to_addresses-Converts _ h = differ _ _ refl h

  pub to_price-Converts : Converts "structIBlocklessAVS.Price" convert_type.to_price
  to_price-Converts (price_struct x) h = (x, own.own_price x)
  to_price-Converts _ h = differ _ _ refl h

  pub to_stake_totals-Converts :
      Converts "structIBLSSignatureChecker.QuorumStakeTotals" convert_type.to_stake_totals
  to_stake_totals-Converts (totals_struct x) h = (x, own.own_stake_totals x)
  to_stake_totals-Converts _ h = differ _ _ refl h
