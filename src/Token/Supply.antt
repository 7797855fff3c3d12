-- ===== src/Token/Supply.antt =====
-- The balances of a reachable token add up to its supply, so no unchecked sum wraps around.
use blockless_avs_tools.Base.{
  ℕ, ◌+◌, ◌-◌, ◌^◌, ◌≤◌, ◌<◌, ◌≡◌, refl, Bool-cases, inl, inr, [], ◌∷◌, Dict, lookup_or, insert,
  nat_eq, ◌==◌, arith, subst,
}
use blockless_avs_tools.Token.{
  Token, Transfer, done, balance_of, credit, add_unchecked, transfer_between, transfer,
  transfer_from, mint,
}

abbrev pub sum : Dict ℕ ℕ → ℕ
sum [] = 0
sum ((_, n) ∷ m) = n + sum m

sum-insert : (k v : ℕ) (m : Dict ℕ ℕ) → sum (insert k v m) + lookup_or k m 0 ≡ sum m + v
sum-insert k v [] = omega arith
sum-insert k v ((j, n) ∷ m) = elim (Bool-cases (j == k)) [
  | inl same ↦ rw (lookup_or, same) (omega arith)
  | inr other ↦ rw (lookup_or, other) (omega (arith, sum-insert k v m))
]

lookup_or-le_sum : (k : ℕ) (m : Dict ℕ ℕ) → lookup_or k m 0 ≤ sum m
lookup_or-le_sum k [] = omega arith
lookup_or-le_sum k ((j, n) ∷ m) = elim (Bool-cases (j == k)) [
  | inl same ↦ rw (lookup_or, same) (omega arith)
  | inr other ↦ rw (lookup_or, other) (omega (arith, lookup_or-le_sum k m))
]

-- The balances add up to the supply, which is a uint256.
pub record IsBalanced (t : Token) : Type 0 where
  pub adds_up : sum t.balances ≡ t.total_supply
  pub fits : t.total_supply < 2 ^ 256

-- The contract starts with no balances, and any account may make any call.
pub data Reach : Token → Type 0 where
  start : Reach (record { balances = []; total_supply = 0 })
  transferred :
      {t t' : Token} {event : Transfer} (msg_sender recipient amount : ℕ)
      → Reach t
      → transfer msg_sender recipient amount t ≡ done t' event
      → Reach t'
  transferred_from :
      {t t' : Token} {event : Transfer} (msg_sender sender recipient amount : ℕ)
      → Reach t
      → transfer_from msg_sender sender recipient amount t ≡ done t' event
      → Reach t'
  minted :
      {t t' : Token} {event : Transfer} (account amount : ℕ)
      → Reach t
      → mint account amount t ≡ done t' event
      → Reach t'

credit-IsBalanced :
    (account amount : ℕ) (t : Token)
    → sum t.balances + amount ≡ t.total_supply
    → t.total_supply < 2 ^ 256
    → IsBalanced (credit account amount t)
unfolding credit balance_of
credit-IsBalanced account amount t adds fits =
    let moved = sum-insert account (lookup_or account t.balances 0 + amount) t.balances in
    let small = lookup_or-le_sum account t.balances in
    let plain : add_unchecked (lookup_or account t.balances 0) amount
        ≡ lookup_or account t.balances 0 + amount =
      omega (arith, small) in
    record { adds_up = rw plain (omega (arith, moved)); fits = fits }

transfer_between-inv :
    (sender recipient amount : ℕ) (t : Token) {t' : Token} {event : Transfer}
    → transfer_between sender recipient amount t ≡ done t' event
    → (amount ≤ balance_of sender t)
      × (credit recipient amount
            (record t { balances = insert sender (balance_of sender t - amount) t.balances })
          ≡ t')
unfolding transfer_between
transfer_between-inv sender recipient amount t h = (ground arith, ground arith)

transfer_between-IsBalanced :
    (sender recipient amount : ℕ) (t : Token) {t' : Token} {event : Transfer}
    → IsBalanced t
    → transfer_between sender recipient amount t ≡ done t' event
    → IsBalanced t'
unfolding balance_of
transfer_between-IsBalanced sender recipient amount t balanced h =
    let (enough, same) = transfer_between-inv sender recipient amount t h in
    let left = balance_of sender t - amount in
    let debited : Token = record t { balances = insert sender left t.balances } in
    let moved = sum-insert sender left t.balances in
    let adds = balanced.adds_up in
    let rest : sum debited.balances + amount ≡ t.total_supply =
      omega (arith, moved, adds, enough) in
    subst IsBalanced same (credit-IsBalanced recipient amount debited rest balanced.fits)

mint-inv :
    (account amount : ℕ) (t : Token) {t' : Token} {event : Transfer}
    → mint account amount t ≡ done t' event
    → (t.total_supply + amount < 2 ^ 256)
      × (credit account amount (record t { total_supply = t.total_supply + amount }) ≡ t')
unfolding mint
mint-inv account amount t h = (ground arith, ground arith)

mint-IsBalanced :
    (account amount : ℕ) (t : Token) {t' : Token} {event : Transfer}
    → IsBalanced t
    → mint account amount t ≡ done t' event
    → IsBalanced t'
mint-IsBalanced account amount t balanced h =
    let (fits, same) = mint-inv account amount t h in
    let adds = balanced.adds_up in
    let rest : sum t.balances + amount ≡ t.total_supply + amount = omega (arith, adds) in
    subst IsBalanced same (credit-IsBalanced account amount _ rest fits)

-- In every reachable state the balances add up to the total supply, which is a uint256: transfers
-- conserve the sum, and mints add to both.
pub Reach-IsBalanced : {t : Token} → Reach t → IsBalanced t
unfolding transfer transfer_from
Reach-IsBalanced start = record { adds_up = refl; fits = omega arith }
Reach-IsBalanced (transferred {t} msg_sender recipient amount before h) =
    transfer_between-IsBalanced msg_sender recipient amount t (Reach-IsBalanced before) h
Reach-IsBalanced (transferred_from {t} msg_sender sender recipient amount before h) =
    transfer_between-IsBalanced sender recipient amount t (Reach-IsBalanced before) h
Reach-IsBalanced (minted {t} account amount before h) =
    mint-IsBalanced account amount t (Reach-IsBalanced before) h

-- No account can hold more than the total supply of a reachable token.
pub balance_of-le : (account : ℕ) (t : Token) → Reach t → balance_of account t ≤ t.total_supply
unfolding balance_of
balance_of-le account t reached =
    let adds = (Reach-IsBalanced reached).adds_up in
    omega (arith, adds, lookup_or-le_sum account t.balances)
