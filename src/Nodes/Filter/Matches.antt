-- ===== src/Nodes/Filter/Matches.antt =====
-- What the node filter lets through, stated by criterion.
use api_elrond_com.Common.{
  and_iff, ◌≡◌, ◌≢◌, ◌↔◌, ◌⊎◌, refl, String, Bool, true, false, Option, none, some, [], includes,
  Eq, bool_eq, nat_eq, option_eq, string_eq, eq_iff, arith,
}
use api_elrond_com.Nodes.{node_type_eq, node_status_eq, Node}
use api_elrond_com.Nodes.Filter.{
  NodeFilter, Texts, agrees, agrees_text, agrees_issues, agrees_full_history, contains_text,
  agrees_search, node_matches,
}

-- What a criterion asks, where it is given.
abbrev pub Wanted {ℓ} : {A : Type ℓ} → (A → Type 0) → Option A → Type 0
Wanted P none = Unit
Wanted P (some a) = P a

-- A text that is not empty and contains the other, both in lower case.
abbrev pub ContainsText : Texts → String → Option String → Type 0
ContainsText js search none = ⊥
ContainsText js search (some s) = (s ≢ "") × (includes (js.lower s) (js.lower search) ≡ true)

abbrev pub HasIssues : Node → Bool → Type 0
HasIssues node true = node.issues ≢ []
HasIssues node false = node.issues ≡ []

abbrev pub HasFullHistory : Node → Bool → Type 0
HasFullHistory node true = node.full_history ≡ some true
HasFullHistory node false = node.full_history ≢ some true

-- An empty text asks for nothing.
abbrev pub IsText : Option String → String → Type 0
IsText x q = (q ≡ "") ⊎ (x ≡ some q)

pub record Matches (js : Texts) (query : NodeFilter) (node : Node) : Type 0 where
  pub search :
      Wanted
        (λ s.
          ContainsText js s (some node.bls)
          ⊎ (ContainsText js s node.name ⊎ ContainsText js s node.version))
        query.search
  pub online : Wanted (λ q. some node.online ≡ some q) query.online
  pub type : Wanted (λ q. node.type ≡ some q) query.type
  pub status : Wanted (λ q. node.status ≡ some q) query.status
  pub shard : Wanted (λ q. node.shard ≡ some q) query.shard
  pub issues : Wanted (HasIssues node) query.issues
  pub identity : Wanted (IsText node.identity) query.identity
  pub provider : Wanted (IsText (some node.provider)) query.provider
  pub owner : Wanted (IsText node.owner) query.owner
  pub auctioned : Wanted (λ q. node.auctioned ≡ some q) query.auctioned
  pub full_history : Wanted (HasFullHistory node) query.full_history

agrees_iff :
    {A : Type 0} ⦃e : Eq A⦄ (q x : Option A) → (agrees q x ≡ true) ↔ Wanted (λ a. x ≡ some a) q
agrees_iff none x = (λ _. tt, λ _. refl)
agrees_iff (some q) x = option_eq.is_same_iff x (some q)

agrees_text_iff : (q x : Option String) → (agrees_text q x ≡ true) ↔ Wanted (IsText x) q
agrees_text_iff none x = (λ _. tt, λ _. refl)
agrees_text_iff (some q) none = ground (arith, eq_iff q "")
agrees_text_iff (some q) (some x) = ground (arith, eq_iff q "", eq_iff x q)

agrees_issues_iff :
    (q : Option Bool) (node : Node)
    → (agrees_issues q node.issues ≡ true) ↔ Wanted (HasIssues node) q
agrees_issues_iff none node = (λ _. tt, λ _. refl)
agrees_issues_iff (some true) node = ground arith
agrees_issues_iff (some false) node = ground arith

agrees_full_history_iff :
    (q : Option Bool) (node : Node)
    → (agrees_full_history q node.full_history ≡ true) ↔ Wanted (HasFullHistory node) q
unfolding bool_eq
agrees_full_history_iff none node = (λ _. tt, λ _. refl)
agrees_full_history_iff (some true) node = ground arith
agrees_full_history_iff (some false) node = ground arith

contains_text_iff :
    (js : Texts) (search : String) (x : Option String)
    → (contains_text js search x ≡ true) ↔ ContainsText js search x
contains_text_iff js search none = (λ h. cc, λ h. absurd h)
contains_text_iff js search (some s) = ground (arith, eq_iff s "")

agrees_search_iff :
    (js : Texts) (q : Option String) (node : Node)
    → (agrees_search js q node ≡ true)
      ↔ Wanted
          (λ s.
            ContainsText js s (some node.bls)
            ⊎ (ContainsText js s node.name ⊎ ContainsText js s node.version))
          q
agrees_search_iff js none node = (λ _. tt, λ _. refl)
agrees_search_iff js (some s) node = ground (
  arith,
  contains_text_iff js s (some node.bls),
  contains_text_iff js s node.name,
  contains_text_iff js s node.version,
)

-- A node passes the filter exactly if it meets every criterion that the query gives.
pub node_matches_iff :
    (js : Texts) (query : NodeFilter) (node : Node)
    → (node_matches js query node ≡ true) ↔ Matches js query node
unfolding node_matches
node_matches_iff js query node =
    let (to, from) = and_iff _ _ (agrees_search_iff js query.search node) (
      and_iff _ _ (agrees_iff query.online (some node.online)) (
        and_iff _ _ (agrees_iff query.type node.type) (
          and_iff _ _ (agrees_iff query.status node.status) (
            and_iff _ _ (agrees_iff query.shard node.shard) (
              and_iff _ _ (agrees_issues_iff query.issues node) (
                and_iff _ _ (agrees_text_iff query.identity node.identity) (
                  and_iff _ _ (agrees_text_iff query.provider (some node.provider)) (
                    and_iff _ _ (agrees_text_iff query.owner node.owner) (
                      and_iff _ _ (agrees_iff query.auctioned node.auctioned)
                        (agrees_full_history_iff query.full_history node)))))))))) in
    (
      λ h.
          (let (a, (b, (c, (d, (e, (f, (g, (k, (l, (m, n)))))))))) = to h in
            record {
              search = a;
              online = b;
              type = c;
              status = d;
              shard = e;
              issues = f;
              identity = g;
              provider = k;
              owner = l;
              auctioned = m;
              full_history = n;
            }),
      λ r. from (
        r.search,
        (
          r.online,
          (
            r.type,
            (
              r.status,
              (
                r.shard,
                (r.issues, (r.identity, (r.provider, (r.owner, (r.auctioned, r.full_history))))),
              ),
            ),
          ),
        ),
      ),
    )
