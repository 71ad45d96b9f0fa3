-- ===== src/Samples.antt =====
-- Data for the runs: a home and the internet, two devices, a group, and a store that holds them.
use beauty_awg.Base.{true, false, none, some, List, [], ◌∷◌, Text}
use beauty_awg.Base.Int.{pos}
use beauty_awg.Json.{obj, end}
use beauty_awg.Errors.{error}
use beauty_awg.Api.{VpnNode, Client, NodeLink, active, thrown}
use beauty_awg.Api.Effects.{World}
use beauty_awg.Groups.{Group}
use beauty_awg.Graph.{cid}
use beauty_awg.Graph.State.{MapState, Position}
use beauty_awg.Store.{Database, Platform}
use beauty_awg.Rules.{Editor}
use beauty_awg.Wizard.{Wizard, naming}
use beauty_awg.Dashboard.{Page, devices}

abbrev pub home_id : Text
home_id = b'4' ∷ b'e' ∷ []

abbrev pub hub_id : Text
hub_id = b'0' ∷ b'1' ∷ []

abbrev pub phone_id : Text
phone_id = b'a' ∷ b'7' ∷ []

abbrev pub laptop_id : Text
laptop_id = b'b' ∷ b'2' ∷ []

abbrev pub home : VpnNode
home = record {
  id = home_id;
  name = b'H' ∷ [];
  address = [];
  lan_iface = [];
  subnets = (b'1' ∷ []) ∷ [];
  status = active;
  hostname = [];
  last_seen = none;
  is_hub = false;
  dns = [];
  domains = [];
  color = [];
  online = true;
}

abbrev pub hub : VpnNode
hub = record {
  id = hub_id;
  name = [];
  address = [];
  lan_iface = [];
  subnets = [];
  status = active;
  hostname = [];
  last_seen = none;
  is_hub = true;
  dns = [];
  domains = [];
  color = [];
  online = true;
}

abbrev pub servers : List VpnNode
servers = home ∷ hub ∷ []

abbrev pub phone : Client
phone = record {
  id = phone_id;
  name = b'P' ∷ [];
  address = [];
  dns = [];
  enabled = true;
  granted_nodes = home_id ∷ [];
  color = [];
  online = true;
}

abbrev pub laptop : Client
laptop = record {
  id = laptop_id;
  name = b'L' ∷ [];
  address = [];
  dns = [];
  enabled = true;
  granted_nodes = [];
  color = [];
  online = false;
}

abbrev pub clients : List Client
clients = phone ∷ laptop ∷ []

abbrev pub family : Group
family = record {
  id = b'f' ∷ [];
  name = b'F' ∷ [];
  w = none;
  h = none;
  color = none;
  members = phone_id ∷ [];
}

abbrev pub there_and_back : List NodeLink
there_and_back =
    record { src = home_id; dst = hub_id } ∷ record { src = hub_id; dst = home_id } ∷ []

-- A platform on which everything is well formed and every change takes effect.
abbrev pub platform : Platform
platform = record {
  reconcile = λ db. none;
  is_prefix = λ s. true;
  is_cidr = λ s. true;
  overlaps = λ a b. false;
  jsonb = λ v. v;
  bytes = λ v. 100;
  layout_error = λ v db. none;
  by_dest = λ rs. rs;
  violation = [];
  bad_dest = λ s. s;
  quote = λ s. s;
  overlap_of = λ a b. a;
  others = λ c db. (thrown (error []), db);
}

abbrev pub database : Database
database = record {
  clients = phone_id ∷ laptop_id ∷ [];
  locations =
      record { id = home_id; name = b'H' ∷ []; is_hub = false; active = true; subnets = [] }
      ∷ record { id = hub_id; name = []; is_hub = true; active = true; subnets = [] }
      ∷ [];
  rows = record { client = phone_id; node = home_id; exit = false; rules = [] } ∷ [];
  links = [];
  layout = obj end;
}

abbrev pub spot : Position
spot = record { x = pos 40; y = pos 8 }

abbrev pub map_state : MapState
map_state = record {
  groups = family ∷ [];
  positions = (cid phone_id, spot) ∷ [];
  detached = [];
  drop_at = some spot;
  save_due = true;
  selected = some (cid phone_id);
  connecting_from = none;
  menu = none;
  adding_device = false;
  editing_group = none;
}

abbrev pub at_work : {L : Type 0} → L → World Database L
at_work l = record { server = database; local = l; log = [] }

abbrev pub editor : Editor
editor = record { rules = []; exit = true; err = []; busy = false; loaded = true }

abbrev pub wizard : Wizard
wizard = record {
  step = naming;
  name = b'T' ∷ [];
  picked = home_id ∷ [];
  created = none;
  busy = false;
  err = [];
}

abbrev pub page : Page
page = record {
  nodes = [];
  clients = [];
  links = [];
  groups = [];
  tab = devices;
  ready = false;
  err = [];
  seen = [];
}
