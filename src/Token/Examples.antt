-- ===== src/Token/Examples.antt =====
-- A token with two holders, and the theorems on the token at it.
use blockless_avs_tools.Base.{[], ◌∷◌, refl, nat_eq}
use blockless_avs_tools.Token.{Token, balance_of, credit, transfer_between, transfer_from, mint}
use blockless_avs_tools.Token.Supply.{
  Reach, start, minted, transferred_from, IsBalanced, Reach-IsBalanced,
}

abbrev moved : Token
moved = record { balances = (3, 60) ∷ (5, 40) ∷ []; total_supply = 100 }

-- Account 9 moves the tokens of account 3.
reached : Reach moved
unfolding mint transfer_from transfer_between credit balance_of
reached = transferred_from 9 3 5 40 (minted 3 100 start refl) refl

Reach-IsBalanced_example : IsBalanced moved
Reach-IsBalanced_example = Reach-IsBalanced reached
