-- ===== src/Api.antt =====
-- web/app/lib/api.ts: what travels between the panel's pages and its backend.
pub mod Effects
pub mod Http
pub mod Grants
use beauty_awg.Base.{ℕ, Bool, Option, List, [], ◌∷◌, Text}
use beauty_awg.Json.{Json}
use beauty_awg.Errors.{Thrown}

pub data Status : Type 0 where
  pending active rejected : Status

-- `Node` of api.ts; `last_seen` is shown as it is.
pub record VpnNode : Type 0 where
  pub id : Text
  pub name : Text
  pub address : Text
  pub lan_iface : Text
  pub subnets : List Text
  pub status : Status
  pub hostname : Text
  pub last_seen : Option Text
  pub is_hub : Bool
  pub dns : Text
  pub domains : List Text
  pub color : Text
  pub online : Bool

pub record Client : Type 0 where
  pub id : Text
  pub name : Text
  pub address : Text
  pub dns : Text
  pub enabled : Bool
  pub granted_nodes : List Text
  pub color : Text
  pub online : Bool

pub data Proto : Type 0 where
  any_proto tcp udp : Proto

pub record Rule : Type 0 where
  pub dest : Text
  pub proto : Proto
  pub port_from : ℕ
  pub port_to : ℕ

pub record NodeLink : Type 0 where
  pub src : Text
  pub dst : Text

-- The methods of `api`, with their arguments.
pub data Call : Type 0 where
  login : Text → Text → Call
  logout : Call
  list_nodes : Call
  create_node : Text → Text → List Text → Call
  delete_node : Text → Call
  update_node : Text → Text → List Text → Call
  rename_node : Text → Text → Call
  set_node_color : Text → Text → Call
  approve_node : Text → Call
  reject_node : Text → Call
  list_clients : Call
  create_client : Text → Text → Call
  update_client : Text → Bool → Text → Call
  rename_client : Text → Text → Call
  set_client_color : Text → Text → Call
  delete_client : Text → Call
  grant : Text → Text → Call
  revoke : Text → Text → Call
  list_node_links : Call
  link_nodes : Text → Text → Call
  unlink_nodes : Text → Text → Call
  get_grant_rules : Text → Text → Call
  set_grant_rules : Text → Text → List Rule → Call
  get_grant_exit : Text → Text → Call
  set_grant_exit : Text → Text → Bool → Call
  get_layout : Call
  set_layout : Json → Call
  get_version : Call
  fetch_text : Text → Call

pub record Created : Type 0 where
  pub id : Text
  pub address : Text

-- What a method resolves to.
abbrev pub Answer : Call → Type 0
Answer list_nodes = List VpnNode
Answer (create_node name iface subnets) = Created
Answer list_clients = List Client
Answer (create_client name dns) = Created
Answer list_node_links = List NodeLink
Answer (get_grant_rules client node) = List Rule
Answer (get_grant_exit client node) = Bool
Answer get_layout = Json
Answer get_version = Text
Answer (fetch_text url) = Text
Answer _ = Unit {0}

-- A promise that is settled.
pub data Result (A : Type 0) : Type 0 where
  ok : A → Result A
  thrown : Thrown → Result A

-- The backend, and the network before it: a state, and for each call its answer or what it
-- throws, with the state after it. Nothing is assumed of it.
abbrev pub Panel : Type 0 → Type 0
Panel S = (c : Call) → S → Result (Answer c) × S
