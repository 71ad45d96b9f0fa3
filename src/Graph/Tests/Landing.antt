-- ===== src/Graph/Tests/Landing.antt =====
-- Connections that are dropped on an office, from a device and from a home.
use beauty_awg.Base.{true, false, List, [], ◌∷◌, Text}
use beauty_awg.Api.{VpnNode}
use beauty_awg.Api.Effects.{World}
use beauty_awg.Samples.{database, map_state, servers, home, home_id}
use beauty_awg.Store.{Database, Location}
use beauty_awg.Graph.State.{MapState}

abbrev office_id : Text
office_id = b'd' ∷ b'9' ∷ []

abbrev home_here : Location
home_here = record {
  id = home_id;
  name = b'H' ∷ [];
  is_hub = false;
  active = true;
  subnets = (b'1' ∷ []) ∷ [];
}

abbrev office_here : Location
office_here = record {
  id = office_id;
  name = b'O' ∷ [];
  is_hub = false;
  active = true;
  subnets = (b'2' ∷ []) ∷ [];
}

abbrev at_home : World Database MapState
at_home = record {
  server = record database { locations = home_here ∷ office_here ∷ [] };
  local = map_state;
  log = [];
}

abbrev shown : List VpnNode
shown = record home { id = office_id } ∷ servers
