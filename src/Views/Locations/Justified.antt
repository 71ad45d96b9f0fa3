-- ===== src/Views/Locations/Justified.antt =====
-- LocationsView.tsx: what can be handed on, whatever is pressed in whatever order while the page's
-- data changes.
use beauty_awg.Base.{
  ◌≡◌, refl, true, false, Option, none, some, List, [], ◌∷◌, Text, All, All-append, All-filter,
  filter, subst,
}
use beauty_awg.Api.{
  VpnNode, Call, approve_node, reject_node, delete_node, rename_node, set_node_color, pending,
  active,
}
use beauty_awg.Dashboard.{has_status}
use beauty_awg.Ui.{
  button, each, Allows-if, Offers, Allows, Allows-append, Allows-each, Allows-Offers,
}
use beauty_awg.Views.Windows.{confirm_view-Allows, empty_view, settings_view}
use beauty_awg.Views.Locations.{
  Output, changes, configures, adds, warns, Windows, Press, approve, reject, setup_file, rename,
  color, remove, add, confirm, cancel, location_lists, request_card, hub_card, place_card,
  location_card, requests, grid, no_homes, removal, locations_view, press, hand_on, save_name,
  save_color, close_rename, close_color, all_closed,
}

abbrev pub IsPending : VpnNode → Type 0
IsPending n = has_status n.status pending ≡ true

abbrev pub IsActive : VpnNode → Type 0
IsActive n = has_status n.status active ≡ true

-- A home or an office that has joined.
abbrev pub IsPlace : VpnNode → Type 0
IsPlace n = (n.is_hub ≡ false) × IsActive n

-- What may be asked of the backend for a location.
abbrev pub IsAllowed : VpnNode → Call → Type 0
IsAllowed n (approve_node id) = (id ≡ n.id) × IsPending n
IsAllowed n (reject_node id) = (id ≡ n.id) × IsPending n
IsAllowed n (delete_node id) = (id ≡ n.id) × IsPlace n
IsAllowed n (rename_node id name) = (id ≡ n.id) × IsPlace n
IsAllowed n (set_node_color id chosen) = (id ≡ n.id) × IsActive n
IsAllowed n call = ⊥

abbrev pub IsJustified : Output → Type 0
IsJustified (changes n call) = IsAllowed n call
IsJustified (configures n) = IsPlace n
IsJustified adds = Unit
IsJustified (warns told) = Unit

-- A window is closed, or about a location of its kind.
abbrev pub About : (VpnNode → Type 0) → Option VpnNode → Type 0
About P none = Unit
About P (some n) = P n

pub record IsSound (w : Windows) : Type 0 where
  pub removing : About IsPlace w.confirm_del
  pub naming : About IsPlace w.renaming
  pub coloring : About IsActive w.picking_color
  pub justified : All IsJustified w.out

-- What happens to the view: a press of a button that the data of that moment shows, or what the
-- windows for a name and a colour do.
pub data Step : Windows → Windows → Type 0 where
  presses :
      (w : Windows) (date : Text → Text) (nodes : List VpnNode) (a : Press)
      → Offers (locations_view date nodes w) a
      → Step w (press a w)
  names :
      (w : Windows) (n : VpnNode) (name : Text) → w.renaming ≡ some n → Step w (save_name n name w)
  paints :
      (w : Windows) (n : VpnNode) (chosen : Text)
      → w.picking_color ≡ some n
      → Step w (save_color n chosen w)
  leaves_name : (w : Windows) → Step w (close_rename w)
  leaves_color : (w : Windows) → Step w (close_color w)

pub data Reach (start : Windows) : Windows → Type 0 where
  here : Reach start start
  next : {v w : Windows} → Reach start v → Step v w → Reach start w

-- What a press that is offered is about.
abbrev CanPress : Press → Type 0
CanPress (approve n) = IsPending n
CanPress (reject n) = IsPending n
CanPress (setup_file n) = IsPlace n
CanPress (rename n) = IsPlace n
CanPress (color n) = IsActive n
CanPress (remove n) = IsPlace n
CanPress (confirm n) = IsPlace n
CanPress add = Unit
CanPress cancel = Unit

requests-Allows : (ns : List VpnNode) → All IsPending ns → Allows CanPress (requests ns)
unfolding requests request_card
requests-Allows [] h = tt
requests-Allows (n ∷ ns) h =
    Allows-each CanPress IsPending request_card (λ m p. (p, (p, tt))) (n ∷ ns) h

card-Allows :
    (date : Text → Text) (n : VpnNode) → IsActive n → Allows CanPress (location_card date n)
unfolding location_card hub_card place_card settings_view
card-Allows date n p =
    Allows-if CanPress n.is_hub _ _ (λ hub. (p, tt))
      (λ place. ((place, p), ((place, p), (p, ((place, p), tt)))))

no_homes-Allows : (ns : List VpnNode) → Allows CanPress (no_homes ns)
unfolding no_homes
no_homes-Allows [] = tt
no_homes-Allows (n ∷ ns) = tt

grid-Allows :
    (date : Text → Text) (nodes : List VpnNode) (ns : List VpnNode)
    → All IsActive ns
    → Allows CanPress (grid date (location_lists nodes) ns)
unfolding grid empty_view
grid-Allows date nodes [] h = (tt, tt)
grid-Allows date nodes (n ∷ ns) h =
    Allows-append CanPress (each (location_card date) (n ∷ ns)) (button _ false add ∷ no_homes _)
      (Allows-each CanPress IsActive (location_card date) (card-Allows date) (n ∷ ns) h)
      (tt, no_homes-Allows (location_lists nodes).real)

removal-Allows : (o : Option VpnNode) → About IsPlace o → Allows CanPress (removal o)
unfolding removal
removal-Allows none h = tt
removal-Allows (some n) h = confirm_view-Allows CanPress _ _ _ (confirm n) cancel h tt

view-Allows :
    (date : Text → Text) (nodes : List VpnNode) (w : Windows)
    → IsSound w
    → Allows CanPress (locations_view date nodes w)
unfolding locations_view location_lists
view-Allows date nodes w s =
    Allows-append CanPress (requests (filter _ nodes)) _
      (requests-Allows (filter _ nodes) (All-filter IsPending _ (λ n h. h) nodes))
      (Allows-append CanPress (grid date (location_lists nodes) _) (removal w.confirm_del)
        (grid-Allows date nodes _ (All-filter IsActive _ (λ n h. h) nodes))
        (removal-Allows w.confirm_del s.removing))

hand_on-IsSound : (o : Output) (w : Windows) → IsJustified o → IsSound w → IsSound (hand_on o w)
hand_on-IsSound o w j s = record {
  removing = s.removing;
  naming = s.naming;
  coloring = s.coloring;
  justified = All-append IsJustified w.out (o ∷ []) s.justified (j, tt);
}

press-IsSound : (a : Press) (w : Windows) → CanPress a → IsSound w → IsSound (press a w)
unfolding press
press-IsSound (approve n) w can s = hand_on-IsSound (changes n (approve_node n.id)) w (refl, can) s
press-IsSound (reject n) w can s = hand_on-IsSound (changes n (reject_node n.id)) w (refl, can) s
press-IsSound (setup_file n) w can s = hand_on-IsSound (configures n) w can s
press-IsSound (rename n) w can s = record {
  removing = s.removing;
  naming = can;
  coloring = s.coloring;
  justified = s.justified;
}
press-IsSound (color n) w can s = record {
  removing = s.removing;
  naming = s.naming;
  coloring = can;
  justified = s.justified;
}
press-IsSound (remove n) w can s = record {
  removing = can;
  naming = s.naming;
  coloring = s.coloring;
  justified = s.justified;
}
press-IsSound (confirm n) w can s =
    let deleted = hand_on-IsSound (changes n (delete_node n.id)) w (refl, can) s in
    let told = hand_on-IsSound (warns _) (hand_on (changes n (delete_node n.id)) w) tt deleted in
    record { removing = tt; naming = s.naming; coloring = s.coloring; justified = told.justified }
press-IsSound add w can s = hand_on-IsSound adds w tt s
press-IsSound cancel w can s = record {
  removing = tt;
  naming = s.naming;
  coloring = s.coloring;
  justified = s.justified;
}

Step-IsSound : {v w : Windows} → Step v w → IsSound v → IsSound w
unfolding save_name save_color close_rename close_color
Step-IsSound (presses w date nodes a offered) s =
    press-IsSound a w
      (Allows-Offers CanPress (locations_view date nodes w) a (view-Allows date nodes w s) offered)
      s
Step-IsSound (names w n name open_on) s =
    hand_on-IsSound (changes n (rename_node n.id name)) w
      (refl, subst (About IsPlace) open_on s.naming) s
Step-IsSound (paints w n chosen open_on) s =
    hand_on-IsSound (changes n (set_node_color n.id chosen)) w
      (refl, subst (About IsActive) open_on s.coloring) s
Step-IsSound (leaves_name w) s = record {
  removing = s.removing;
  naming = tt;
  coloring = s.coloring;
  justified = s.justified;
}
Step-IsSound (leaves_color w) s = record {
  removing = s.removing;
  naming = s.naming;
  coloring = tt;
  justified = s.justified;
}

Reach-IsSound : {w : Windows} → Reach all_closed w → IsSound w
Reach-IsSound here = record { removing = tt; naming = tt; coloring = tt; justified = tt }
Reach-IsSound (next r st) = Step-IsSound st (Reach-IsSound r)

-- Whatever is pressed on the page of locations, in whatever order, while its data changes: only a
-- location that asks to join is approved or rejected, only a home or an office that has joined is
-- removed, renamed or has its setup file handed out, so never the internet's, and only one that has
-- joined is given a colour. Each call is about the location whose card or window it came from.
pub Reach-IsJustified : {w : Windows} → Reach all_closed w → All IsJustified w.out
Reach-IsJustified r = (Reach-IsSound r).justified
