-- ===== src/Dashboard/Tests.antt =====
-- Runs of the page.
use beauty_awg.Base.{◌≡◌, ◌↔◌, refl, true, none, some, List, [], ◌∷◌, Text}
use beauty_awg.Base.Dict.{lookup}
use beauty_awg.Json.{obj, end, entries}
use beauty_awg.Groups.Layout.{parse_layout}
use beauty_awg.Groups.{group_of}
use beauty_awg.Samples.{page, clients, servers, family, phone_id}
use beauty_awg.Dashboard.{Payload, take_payload, group_name_by_client, Stringify}
use beauty_awg.Dashboard.Loading.{IsFaithful, IsCoherent, Holds, take_payload-Holds}
use beauty_awg.Dashboard.Naming.{holds_named, group_name_by_client-group_of}

group_name_by_client-group_of_example :
    ((lookup phone_id (group_name_by_client (family ∷ [])) ≡ none)
      ↔ (group_of (family ∷ []) phone_id ≡ none))
    × ((name : Text)
        → lookup phone_id (group_name_by_client (family ∷ [])) ≡ some name
        → holds_named (family ∷ []) phone_id name ≡ true)
group_name_by_client-group_of_example = group_name_by_client-group_of (family ∷ []) phone_id

-- Strings that tell an empty list from others.
abbrev mark : {A : Type 0} → List A → Text
mark [] = []
mark (x ∷ xs) = b'x' ∷ []

abbrev marks : Stringify
marks = record { nodes = mark; clients = mark; links = mark; groups = mark }

abbrev payload : Payload
payload = record { nodes = servers; clients = clients; links = []; layout = obj end }

payload-IsFaithful : IsFaithful marks payload page
unfolding parse_layout entries
payload-IsFaithful = record {
  nodes = λ h. cc;
  clients = λ h. cc;
  links = λ h. refl;
  groups = λ h. refl;
}

page-IsCoherent : IsCoherent marks page
unfolding lookup
page-IsCoherent = record {
  nodes = λ s h. cc;
  clients = λ s h. cc;
  links = λ s h. cc;
  groups = λ s h. cc;
}

take_payload-Holds_example :
    Holds payload (take_payload marks payload page)
    × IsCoherent marks (take_payload marks payload page)
take_payload-Holds_example =
    take_payload-Holds marks payload page payload-IsFaithful page-IsCoherent
