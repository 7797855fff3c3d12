-- ===== src/Core/Digest/Laws.antt =====
-- What the digest of a price is, and when two prices can share one.
use blockless_avs_tools.Base.{
  ℕ, zero, suc, ◌≡◌, ◌≤◌, refl, List, [], ◌∷◌, arith, ok, >>=-eq-ok, length, take, replicate, ◌∙◌,
  sym, ap, ◌↔◌, some, pos, ◌<◌, ◌^◌,
}
use blockless_avs_tools.Bindings.{Price}
use blockless_avs_tools.Core.Digest.{
  AbiLib, price_components, copy, abi_encode_price_response, get_price_digest,
}

pub length-copy : (dst src : List ℕ) → length (copy dst src) ≡ length dst
length-copy [] src = refl
length-copy (d ∷ dst) [] = refl
length-copy (d ∷ dst) (s ∷ src) = omega (arith, length-copy dst src)

-- A copy of as many bytes as the array has, or more, is those bytes.
copy-take : (dst src : List ℕ) → length dst ≤ length src → copy dst src ≡ take (length dst) src
copy-take [] src h = refl
copy-take (d ∷ dst) [] h = absurd (omega arith)
copy-take (d ∷ dst) (s ∷ src) h = ap (λ r. s ∷ r) (copy-take dst src (omega arith))

take-all : (n : ℕ) (xs : List ℕ) → length xs ≡ n → take n xs ≡ xs
take-all zero [] h = refl
take-all zero (x ∷ xs) h = absurd (omega arith)
take-all (suc n) [] h = absurd (omega arith)
take-all (suc n) (x ∷ xs) h = ap (λ r. x ∷ r) (take-all n xs (omega arith))

-- A price of the types that `price_components` names.
abbrev pub HasTupleType : Price → Type 0
HasTupleType p = (n : ℕ) × (p.price ≡ some (pos n)) × (n < 2 ^ 256) × (p.timestamp < 2 ^ 32)

module _ {T : Type 0} (lib : AbiLib T) where
  -- A digest always fills its array of 32 bytes, whatever the hash gives.
  length-get_price_digest : (p : Price) {d : List ℕ} → get_price_digest lib p ≡ ok d → length d ≡ 32
  unfolding get_price_digest
  length-get_price_digest p h =
      let (bytes, e, f) = >>=-eq-ok (abi_encode_price_response lib p) _ h in
      ground (arith, length-copy (replicate 32 0) (take 32 (lib.keccak256 bytes)))

  -- With a hash of 32 bytes, a price has a digest exactly when it can be encoded, and the digest
  -- is then the whole hash of the encoding.
  pub get_price_digest_iff :
      ((bytes : List ℕ) → length (lib.keccak256 bytes) ≡ 32)
      → (p : Price) (d : List ℕ)
      → (get_price_digest lib p ≡ ok d) ↔ (
          (bytes : List ℕ) × (abi_encode_price_response lib p ≡ ok bytes)
          × (d ≡ lib.keccak256 bytes))
  unfolding get_price_digest
  get_price_digest_iff size p d = (
    λ h.
        (let (bytes, e, f) = >>=-eq-ok (abi_encode_price_response lib p) _ h in
          (bytes, e, ground (arith, whole bytes))),
    λ (bytes, e, f). rw (e, f) (ap ok (whole bytes)),
  )
    where
      whole :
          (bytes : List ℕ)
          → copy (replicate 32 0) (take 32 (lib.keccak256 bytes)) ≡ lib.keccak256 bytes
      whole bytes = rw (take-all 32 (lib.keccak256 bytes) (size bytes)) (
          copy-take (replicate 32 0) (lib.keccak256 bytes) (omega (arith, size bytes))
          ∙ take-all 32 (lib.keccak256 bytes) (size bytes))

  packed :
      (p : Price) (a : List ℕ)
      → abi_encode_price_response lib p ≡ ok a
      → (t : T) × (lib.new_type "tuple" "" price_components ≡ ok t) × (lib.pack (t ∷ []) p ≡ ok a)
  unfolding abi_encode_price_response
  packed p a h =
      let (t, e, h') = >>=-eq-ok (lib.new_type "tuple" "" price_components) _ h in
      let (bytes, f, g) = >>=-eq-ok (lib.pack (t ∷ []) p) _ h' in (t, e, f ∙ g)

  pub get_price_digest-injective :
      (p q : Price) {d : List ℕ}
      → ((bytes : List ℕ) → length (lib.keccak256 bytes) ≡ 32)
      → ((a b : List ℕ)
          → abi_encode_price_response lib p ≡ ok a
          → abi_encode_price_response lib q ≡ ok b
          → lib.keccak256 a ≡ lib.keccak256 b
          → a ≡ b)
      → ((t : T)
          → lib.new_type "tuple" "" price_components ≡ ok t
          → (x y : Price) (bytes : List ℕ) → HasTupleType x
          → HasTupleType y
          → lib.pack (t ∷ []) x ≡ ok bytes
          → lib.pack (t ∷ []) y ≡ ok bytes
          → x ≡ y)
      → HasTupleType p
      → HasTupleType q
      → get_price_digest lib p ≡ ok d
      → get_price_digest lib q ≡ ok d
      → p ≡ q
  get_price_digest-injective p q {d} size no_collision packs typed_p typed_q hp hq =
      let (a, ea, da) = (get_price_digest_iff size p d).0 hp in
      let (b, eb, db) = (get_price_digest_iff size q d).0 hq in
      let same = no_collision a b ea eb (sym da ∙ db) in
      let (t, et, pa) = packed p a ea in
      let (u, eu, pb) = packed q b eb in
      let one_type : t ≡ u = cc in packs t et p q a typed_p typed_q pa (rw (one_type, same) pb)
