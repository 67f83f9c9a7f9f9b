-- ===== src/Identities/Tests.antt =====
-- Identities of a few nodes, and the properties at inputs of their own.
use api_elrond_com.Common.{
  ℕ, ◌≡◌, refl, String, none, some, [], ◌∷◌, string_eq, ◌==◌, if◌then◌else◌, arith,
}
use api_elrond_com.Nodes.{NodeType, Node, new_node}
use api_elrond_com.Identities.{
  KeybaseIdentity, get_identities_detailed, sum_percents, get_stake_distribution,
}
use api_elrond_com.Identities.Grouping.{count, count_all, get_identities_detailed-count}
use api_elrond_com.Identities.Distribution.{sum_percents-get_stake_distribution}

abbrev known : KeybaseIdentity
known = record {
  identity = some "team";
  name = none;
  avatar = none;
  description = none;
  location = none;
  twitter = none;
  website = none;
}

abbrev team_node : Node
team_node = record new_node {
  bls = "a";
  identity = some "team";
  type = some NodeType.validator;
  stake = "2";
  top_up = "1";
  provider = "p";
}

abbrev other_node : Node
other_node = record new_node {
  bls = "b";
  type = some NodeType.validator;
  stake = "2";
  top_up = "2";
}

-- Decimals of one digit.
abbrev digits : String → ℕ
digits s = if s == "1" then 1 else if s == "2" then 2 else 0

distribution :
    get_stake_distribution digits 7 (team_node ∷ other_node ∷ [])
    ≡ ("p", some 43) ∷ ("direct", some 57) ∷ []
unfolding get_stake_distribution
distribution = refl

get_identities_detailed-count_example :
    count_all
      (λ (n : Node). n.bls == "a")
      (get_identities_detailed (some known ∷ none ∷ []) (team_node ∷ other_node ∷ []))
    ≡ count (λ (n : Node). n.bls == "a") (team_node ∷ other_node ∷ [])
get_identities_detailed-count_example =
    get_identities_detailed-count (some known ∷ none ∷ []) (team_node ∷ other_node ∷ [])
      (λ (n : Node). n.bls == "a")

sum_percents-get_stake_distribution_example :
    sum_percents (get_stake_distribution digits 7 (team_node ∷ other_node ∷ [])) ≡ 100
sum_percents-get_stake_distribution_example =
    sum_percents-get_stake_distribution digits (team_node ∷ other_node ∷ []) (omega arith)
