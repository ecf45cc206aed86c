-- ===== src/Subscription/Tests.antt =====
-- A cached page and a bundle, and the theorems about them applied to these.
use casper_vpn.Base.{
  String, ℕ, none, some, List, [], ◌∷◌, ◌≡◌, ◌≢◌, refl, ◌<◌, ◌+◌, arith, ◌==◌, Bool, true, false,
  eq_iff,
}
use casper_vpn.Map.{empty, insert, lookup}
use casper_vpn.ControlPlane.Contracts.{TransportType, valid_transport, Node, SubscriptionBundle, ok}
use casper_vpn.Orchestrator.Policy.{NodeStatus}
use casper_vpn.ControlPlane.Tests.{anna, entry_node, exit_node, reality}
use casper_vpn.Subscription.Personalize.{Params, filter, public_bundle, listed}
use casper_vpn.Subscription.Personalize.Families.{has_family, Apart, filter-types}
use casper_vpn.Subscription.Personalize.Public.{IsValid, Shows, public_bundle-Shows}
use casper_vpn.Subscription.Cache.{Entry, Cache, new, get, put, invalidate_all, invalidate_token}
use casper_vpn.Subscription.Cache.Lookup.{get-put, get-invalidate_token}
use casper_vpn.Subscription.Cache.Freshness.{
  Call, call_get, call_put, call_invalidate_token, apply, run, invalidated_for_good,
}

abbrev page : Entry
page = record { body = "outbounds"; content_type = "application/json"; headers = empty }

-- A page is cached, and then the page of another token.
abbrev rendered : List Call
rendered = call_put "t1" "singbox" page 10 10 10 ∷ []

abbrev others : List Call
others =
    call_put "t2" "singbox" page 20 20 20
    ∷ call_get "t1" "singbox" 25
    ∷ call_invalidate_token "t3"
    ∷ []

abbrev filled : Cache
filled = run rendered (new 300)

different : (b : Bool) → b ≡ false → b ≡ true → ⊥
different b e f = cc

keys_differ : ◌≢◌ {A = String} "t2|singbox" "t1|singbox"
keys_differ e =
    different ("t2|singbox" == "t1|singbox") refl ((eq_iff "t2|singbox" "t1|singbox").1 e)

invalidated_for_good_example :
    (get "t1" "singbox" 30 (run others (invalidate_all (run rendered (new 300))))).0 ≡ none
invalidated_for_good_example =
    invalidated_for_good 300 rendered others "t1" "singbox" 30 (omega arith)
      (keys_differ, (tt, (tt, tt)))

filled_lasts : (later : ℕ) → later < 320 → later < 20 + filled.ttl
unfolding run apply put insert lookup
filled_lasts later h = h

get-put_example : (get "t2" "singbox" 200 (put "t2" "singbox" page 20 20 21 filled)).0 ≡ some page
get-put_example =
    get-put "t2" "singbox" page 20 20 21 200 filled (filled_lasts 21 (omega arith))
      (filled_lasts 200 (omega arith))

get-invalidate_token_example : (get "t1" "singbox" 30 (invalidate_token "t1" filled)).0 ≡ none
get-invalidate_token_example = get-invalidate_token "t1" "singbox" 30 filled

abbrev serving : Node
serving = record entry_node { status = NodeStatus.active }

abbrev annas_bundle : SubscriptionBundle
annas_bundle = record { user = anna; nodes = serving ∷ exit_node ∷ []; generated_at = 7 }

abbrev hints : Params
hints = record { region = "fi"; platform = "ios" }

-- The VLESS transport is made Anna's; the shared Shadowsocks one and the exit are left out.
abbrev personal_entry : Node
personal_entry = record serving {
  transports =
      record reality {
        vless_params = some (record {
          server_names = [];
          dest = "";
          public_key = "";
          short_ids = "s" ∷ [];
          flow = "";
          fingerprint = "";
          spider_x = "";
        });
      }
      ∷ [];
}

abbrev annas_page : SubscriptionBundle
annas_page = record {
  user = record anna { private_key = ""; telegram_id = none; email = none };
  nodes = personal_entry ∷ [];
  generated_at = 7;
}

annas_bundle_public : public_bundle annas_bundle ≡ ok annas_page
unfolding public_bundle
annas_bundle_public = refl

public_bundle-Shows_example : Shows annas_bundle annas_page
unfolding IsValid valid_transport
public_bundle-Shows_example =
    public_bundle-Shows annas_bundle annas_page ((refl, (refl, tt)), (tt, tt)) annas_bundle_public

filter-types_example :
    let r = filter annas_bundle "basic" hints in
    (listed TransportType.shadowsocks_2022 r.types
      ≡ has_family TransportType.shadowsocks_2022 r.bundle.nodes)
    × Apart r.types
filter-types_example = filter-types annas_bundle "basic" hints TransportType.shadowsocks_2022
