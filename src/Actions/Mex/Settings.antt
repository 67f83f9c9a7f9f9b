-- ===== src/Actions/Mex/Settings.antt =====
-- The settings that are made from an answer of the exchange: `fromQueryResponse` of
-- src/endpoints/mex/entities/mex.settings.ts.
use api_elrond_com.Common.{
  ◌≡◌, refl, String, Bool, ◌&&◌, ◌||◌, some, List, [], ◌∷◌, ◌++◌, map, filter, find?, starts_with,
  option_eq, string_eq, ◌==◌, arith,
}
use api_elrond_com.Actions.Mex.{MexSettings, has, contracts_of}

pub record Contract : Type 0 where
  pub state : String
  pub address : String

pub record Proxy : Type 0 where
  pub address : String
  pub collections : List String

pub record PairToken : Type 0 where
  pub name : String
  pub identifier : String

pub record PairContract : Type 0 where
  pub state : String
  pub address : String
  pub first_token : PairToken
  pub second_token : PairToken

pub record QueryResponse : Type 0 where
  pub farms : List Contract
  pub staking_farms : List Contract
  pub staking_proxies : List String
  pub proxy : List Proxy
  pub pairs : List PairContract
  pub wrapping_info : List String
  pub distribution : String
  pub locked_asset_factory : String
  pub factory : String

abbrev pub addresses : List Contract → List String
addresses contracts = map (λ (c : Contract). c.address) contracts

abbrev pub proxy_addresses : List Proxy → List String
proxy_addresses proxies = map (λ (x : Proxy). x.address) proxies

-- `flat`
abbrev pub collections_of : List Proxy → List String
collections_of [] = []
collections_of (x ∷ proxies) = x.collections ++ collections_of proxies

abbrev pub is_mex_egld : PairContract → Bool
is_mex_egld x = (x.first_token.name == "WrappedEGLD") && (x.second_token.name == "MEX")

-- The identifiers of the first such pair, or empty texts.
abbrev pub first_pair : List PairContract → String × String
first_pair [] = ("", "")
first_pair (x ∷ pairs) = (x.first_token.identifier, x.second_token.identifier)

-- `distinct` of the package.
unfoldable pub from_query_response : (List String → List String) → QueryResponse → MexSettings
from_query_response distinct r =
    let identifiers = distinct (collections_of r.proxy) in
    let (wegld_id, mex_id) = first_pair (filter is_mex_egld r.pairs) in
    record {
      farm_contracts =
          addresses
            (filter (λ (c : Contract). (c.state == "Active") || (c.state == "Migrate")) r.farms)
          ++ (addresses (filter (λ (c : Contract). c.state == "Active") r.staking_farms)
              ++ (r.staking_proxies ++ proxy_addresses r.proxy));
      pair_contracts =
          map (λ (c : PairContract). c.address)
            (filter (λ (c : PairContract). c.state == "Active") r.pairs)
          ++ proxy_addresses r.proxy;
      wrap_contracts = r.wrapping_info;
      distribution_contract = r.distribution;
      locked_asset_contract = r.locked_asset_factory;
      router_factory_contract = r.factory;
      locked_asset_identifier = find? (λ identifier. starts_with identifier "LKMEX") identifiers;
      locked_asset_identifier_v2 = find? (λ identifier. starts_with identifier "XMEX") identifiers;
      mex_id = mex_id;
      wegld_id = wegld_id;
    }

has-append : (x : String) (xs ys : List String) → has (xs ++ ys) x ≡ (has xs x || has ys x)
has-append x [] ys = refl
has-append x (y ∷ xs) ys = ground (arith, has-append x xs ys)

-- A contract that a recognizer of the exchange acts on is one of the exchange's contracts.
acted_on : MexSettings → String → Bool
acted_on s a =
    (s.distribution_contract == a)
    || ((s.locked_asset_contract == a)
        || ((s.router_factory_contract == a)
            || (has s.farm_contracts a || (has s.pair_contracts a || has s.wrap_contracts a))))

contracts_of-has : (s : MexSettings) (a : String) → has (contracts_of (some s)) a ≡ acted_on s a
unfolding acted_on
contracts_of-has s a =
    rw
      (
        has-append a s.farm_contracts (s.pair_contracts ++ s.wrap_contracts),
        has-append a s.pair_contracts s.wrap_contracts,
        acted_on,
      )
      refl
