-- ===== src/Api/Http.antt =====
-- web/app/lib/api.ts: the request that each method sends, and what `req` makes of the response.
use beauty_awg.Base.{
  ℕ, Bool, Option, none, some, [], ◌∷◌, ◌++◌, Text, codes, map, leb, ◌&&◌, if◌then◌else◌, ◌or_text◌,
}
use beauty_awg.Base.Int.{pos}
use beauty_awg.Base.Dict.{Dict}
use beauty_awg.Json.{Json, bool, num, str, arr, obj, of_items, of_fields}
use beauty_awg.Errors.{api_error, error}
use beauty_awg.Errors.Patterns.{includes_text}
use beauty_awg.Api.{
  Call, login, logout, list_nodes, create_node, delete_node, update_node, rename_node,
  set_node_color, approve_node, reject_node, list_clients, create_client, update_client,
  rename_client, set_client_color, delete_client, grant, revoke, list_node_links, link_nodes,
  unlink_nodes, get_grant_rules, set_grant_rules, get_grant_exit, set_grant_exit, get_layout,
  set_layout, get_version, fetch_text, Rule, Proto, any_proto, tcp, udp, Result, ok, thrown,
}

pub data Method : Type 0 where
  get post put patch delete : Method

pub record Request : Type 0 where
  pub method : Method
  pub path : Text
  pub body : Option Json

pub record Response : Type 0 where
  pub status : ℕ
  pub status_text : Text
  pub content_type : Text
  pub text : Text
  -- What `res.json()` parses the body to, if it does.
  pub json : Option Json

abbrev bare : Method → Text → Request
bare m path = record { method = m; path = path; body = none }

abbrev with_body : Method → Text → Dict Json → Request
with_body m path fs = record { method = m; path = path; body = some (obj (of_fields fs)) }

proto_name : Proto → Text
proto_name any_proto = codes "any"
proto_name tcp = codes "tcp"
proto_name udp = codes "udp"

rule_json : Rule → Json
unfolding proto_name
rule_json r = obj (
    of_fields (
      (codes "dest", str r.dest)
      ∷ (codes "proto", str (proto_name r.proto))
      ∷ (codes "port_from", num (pos r.port_from))
      ∷ (codes "port_to", num (pos r.port_to))
      ∷ []))

unfoldable pub node_path : Text → Text
node_path id = codes "/api/nodes/" ++ id

unfoldable pub client_path : Text → Text
client_path id = codes "/api/clients/" ++ id

unfoldable pub grant_path : Text → Text → Text
unfolding client_path
grant_path client node = client_path client ++ codes "/grants/" ++ node

unfoldable pub link_path : Text → Text → Text
unfolding node_path
link_path src dst = node_path src ++ codes "/links/" ++ dst

unfoldable pub client_config_url : Text → Text
unfolding client_path
client_config_url id = client_path id ++ codes "/config"

unfoldable pub client_vpn_link_url : Text → Text
unfolding client_path
client_vpn_link_url id = client_path id ++ codes "/vpnlink"

unfoldable pub node_config_url : Text → Text
unfolding node_path
node_config_url id = node_path id ++ codes "/config"

unfoldable pub request : Call → Request
unfolding node_path client_path grant_path link_path rule_json
request (login username password) =
    with_body post (codes "/api/login")
      ((codes "username", str username) ∷ (codes "password", str password) ∷ [])
request logout = bare post (codes "/api/logout")
request list_nodes = bare get (codes "/api/nodes")
request (create_node name lan_iface subnets) = with_body post (codes "/api/nodes") (
    (codes "name", str name)
    ∷ (codes "lan_iface", str lan_iface)
    ∷ (codes "subnets", arr (of_items (map str subnets)))
    ∷ [])
request (delete_node id) = bare delete (node_path id)
request (update_node id dns domains) =
    with_body patch (node_path id)
      ((codes "dns", str dns) ∷ (codes "domains", arr (of_items (map str domains))) ∷ [])
request (rename_node id name) = with_body patch (node_path id) ((codes "name", str name) ∷ [])
request (set_node_color id color) = with_body patch (node_path id) ((codes "color", str color) ∷ [])
request (approve_node id) = bare post (node_path id ++ codes "/approve")
request (reject_node id) = bare post (node_path id ++ codes "/reject")
request list_clients = bare get (codes "/api/clients")
request (create_client name dns) =
    with_body post (codes "/api/clients") ((codes "name", str name) ∷ (codes "dns", str dns) ∷ [])
request (update_client id enabled dns) =
    with_body patch (client_path id) ((codes "enabled", bool enabled) ∷ (codes "dns", str dns) ∷ [])
request (rename_client id name) = with_body patch (client_path id) ((codes "name", str name) ∷ [])
request (set_client_color id color) =
    with_body patch (client_path id) ((codes "color", str color) ∷ [])
request (delete_client id) = bare delete (client_path id)
request (grant client node) = bare put (grant_path client node)
request (revoke client node) = bare delete (grant_path client node)
request list_node_links = bare get (codes "/api/nodes/links")
request (link_nodes src dst) = bare put (link_path src dst)
request (unlink_nodes src dst) = bare delete (link_path src dst)
request (get_grant_rules client node) = bare get (grant_path client node ++ codes "/rules")
request (set_grant_rules client node rules) = record {
  method = put;
  path = grant_path client node ++ codes "/rules";
  body = some (arr (of_items (map rule_json rules)));
}
request (get_grant_exit client node) = bare get (grant_path client node ++ codes "/exit")
request (set_grant_exit client node exit) =
    with_body put (grant_path client node ++ codes "/exit") ((codes "exit", bool exit) ∷ [])
request get_layout = bare get (codes "/api/layout")
request (set_layout blob) = record { method = put; path = codes "/api/layout"; body = some blob }
request get_version = bare get (codes "/api/version")
request (fetch_text url) = bare get url

-- `res.ok`
is_ok : ℕ → Bool
is_ok status = leb 200 status && leb status 299

json_body : Option Json → Result (Option Json)
json_body none = thrown (error (codes "SyntaxError"))
json_body (some v) = ok (some v)

-- `req` after `fetch` resolved: `none` is `undefined`.
unfoldable pub read_response : Response → Result (Option Json)
unfolding is_ok json_body
read_response r =
    if is_ok r.status
    then if includes_text r.content_type (codes "application/json")
      then json_body r.json
      else ok none
    else thrown (api_error r.status (r.text or_text r.status_text))
