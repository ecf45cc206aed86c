-- ===== src/Subscription/Personalize.antt =====
-- services/subscription/internal/personalize: personalize.go, which narrows a bundle's nodes for one
-- request, and public.go, which leaves only personal credentials in it. A platform and a plan are
-- texts, as in the code; the slices of the result are not aliased by anything.
pub mod Diverse
pub mod Public
pub mod Families
use casper_vpn.Base.{
  String, ℕ, Bool, true, false, not, Option, none, some, List, [], ◌∷◌, ◌==◌, ◌&&◌, ◌||◌, is_zero,
  if◌then◌else◌, length, take, keep_if, any_of, ltb, leb, ◌++◌,
}
use casper_vpn.Map.{lookup}
use casper_vpn.Orchestrator.Policy.{NodeStatus}
use casper_vpn.ControlPlane.Contracts.{
  TransportType, vless_reality, hysteria2, Transport, VlessRealityParams, Hysteria2Params, Node,
  User, SubscriptionBundle, transport_name, same_node_status, is_exit, failure, Result, ok, err,
}
use casper_vpn.ControlPlane.Store.Subscriptions.{text_or_blank}

abbrev pub min_transport_diversity : ℕ
min_transport_diversity = 2

abbrev pub max_basic_nodes : ℕ
max_basic_nodes = 5

pub record Params : Type 0 where
  pub region : String
  pub platform : String

pub record Filtered : Type 0 where
  pub bundle : SubscriptionBundle
  pub types : List TransportType
  pub relaxed : Bool

-- `n.Labels[name]`
abbrev pub label : String → Node → String
label name n = text_or_blank (lookup name n.labels)

abbrev pub enabled : Node → List Transport
enabled n = keep_if (λ t. t.enabled) n.transports

abbrev pub can_serve : Node → Bool
can_serve n =
    (same_node_status n.status NodeStatus.active || same_node_status n.status NodeStatus.degraded)
    && not (label "blocked" n == "true")
    && not (is_zero (length (enabled n)))

unfoldable pub drop_blocked : List Node → List Node
drop_blocked nodes = keep_if can_serve nodes

abbrev pub or_all : List Node → List Node → List Node
or_all [] nodes = nodes
or_all (m ∷ ms) nodes = m ∷ ms

unfoldable pub filter_region : List Node → String → List Node
filter_region nodes region =
    if region == "" then nodes else or_all (keep_if (λ n. n.region == region) nodes) nodes

unfoldable pub filter_platform : List Node → String → List Node
filter_platform nodes platform =
    if platform == ""
    then nodes
    else keep_if (λ n. not (label "platform_exclude" n == platform)) nodes

abbrev pub is_premium : Node → Bool
is_premium n = label "tier" n == "premium"

unfoldable pub filter_plan : List Node → String → List Node
filter_plan nodes plan =
    if plan == "unlimited"
    then nodes
    else take max_basic_nodes (keep_if (λ n. not (is_premium n)) nodes)

-- The type is `seen`.
abbrev pub listed : TransportType → List TransportType → Bool
listed t types = any_of (λ u. transport_name u == transport_name t) types

abbrev pub add_type : TransportType → List TransportType → List TransportType
add_type t types = if listed t types then types else types ++ (t ∷ [])

unfoldable pub add_types : List Transport → List TransportType → List TransportType
add_types [] types = types
add_types (t ∷ ts) types = add_types ts (add_type t.type types)

unfoldable pub types_from : List Node → List TransportType → List TransportType
unfolding add_types
types_from [] types = types
types_from (n ∷ ns) types = types_from ns (add_types (enabled n) types)

unfoldable pub distinct_transport_types : List Node → List TransportType
unfolding types_from
distinct_transport_types nodes = types_from nodes []

abbrev pub narrowed : List Node → String → Params → List Node
unfolding filter_region filter_platform filter_plan
narrowed servable plan p =
    filter_plan (filter_platform (filter_region servable p.region) p.platform) plan

-- The filters would leave less than two families, where the servable nodes have two.
abbrev pub collapses : List Node → List Node → Bool
unfolding distinct_transport_types
collapses kept servable =
    ltb (length (distinct_transport_types kept)) min_transport_diversity
    && leb min_transport_diversity (length (distinct_transport_types servable))

abbrev pub with_nodes : SubscriptionBundle → List Node → Bool → Filtered
unfolding distinct_transport_types
with_nodes b nodes relaxed = record {
  bundle = record b { nodes = nodes };
  types = distinct_transport_types nodes;
  relaxed = relaxed;
}

unfoldable pub filter : SubscriptionBundle → String → Params → Filtered
unfolding drop_blocked
filter b plan p =
    let servable = drop_blocked b.nodes in
    let kept = narrowed servable plan p in
    if collapses kept servable then with_nodes b servable true else with_nodes b kept false

-- A loop that may skip an element, and that stops at the first error.
abbrev pub push : {A : Type 0} → Result (Option A) → Result (List A) → Result (List A)
push (err e) rest = err e
push (ok none) rest = rest
push (ok (some x)) (err e) = err e
push (ok (some x)) (ok xs) = ok (x ∷ xs)

unfoldable pub collect : {A B : Type 0} → (A → Result (Option B)) → List A → Result (List B)
collect f [] = ok []
collect f (x ∷ xs) = push (f x) (collect f xs)

abbrev pub personal_vless : Option VlessRealityParams → User → Transport → Result (Option Transport)
personal_vless none u t = err failure
personal_vless (some p) u t =
    if u.uuid == "" || u.reality_short_id == ""
    then err failure
    else ok
        (some (record t { vless_params = some (record p { short_ids = u.reality_short_id ∷ [] }) }))

abbrev pub personal_hysteria2 :
    Option Hysteria2Params → User → Transport → Result (Option Transport)
personal_hysteria2 none u t = err failure
personal_hysteria2 (some p) u t =
    if u.hysteria2_password == ""
    then err failure
    else ok
        (some (record t { hysteria2_params = some (record p { password = u.hysteria2_password }) }))

abbrev pub personal_as : TransportType → User → Transport → Result (Option Transport)
personal_as vless_reality u t = personal_vless t.vless_params u t
personal_as hysteria2 u t = personal_hysteria2 t.hysteria2_params u t
personal_as _ u t = ok none

abbrev pub personal : User → Transport → Result (Option Transport)
personal u t = if not t.enabled then ok none else personal_as t.type u t

abbrev pub with_transports : Node → Result (List Transport) → Result (Option Node)
with_transports n (err e) = err e
with_transports n (ok []) = ok none
with_transports n (ok (t ∷ ts)) = ok (some (record n { transports = t ∷ ts }))

unfoldable pub public_node : User → Node → Result (Option Node)
unfolding collect
public_node u n =
    if is_exit n.role then ok none else with_transports n (collect (personal u) n.transports)

abbrev pub public_with : SubscriptionBundle → Result (List Node) → Result SubscriptionBundle
public_with b (err e) = err e
public_with b (ok []) = err failure
public_with b (ok (n ∷ ns)) = ok (record {
  user = record b.user { private_key = ""; telegram_id = none; email = none };
  nodes = n ∷ ns;
  generated_at = b.generated_at;
})

unfoldable pub public_bundle : SubscriptionBundle → Result SubscriptionBundle
unfolding public_node collect
public_bundle b = public_with b (collect (public_node b.user) b.nodes)
