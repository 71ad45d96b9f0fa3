-- ===== src/Graph/Access/Deletion.antt =====
-- Which lines a deletion of AccessGraph.tsx reaches, and what it takes them for.
use beauty_awg.Base.{◌≡◌, refl, Option, none, List, [], ◌∷◌, Text, filter, Bool-cases, inl, inr}
use beauty_awg.Api.{VpnNode, Client, Panel, Result, ok, thrown}
use beauty_awg.Api.Effects.{World, M, bind, for_each}
use beauty_awg.Graph.State.{MapState}
use beauty_awg.Graph.Access.{
  Edge, line_of, in_selection, delete_line, delete_lines, on_edges_delete,
}

pub bind_congr :
    {S L A B : Type 0} (r : Result A × World S L) (f g : A → M S L B)
    → ((a : A) (w : World S L) → f a w ≡ g a w)
    → bind r f ≡ bind r g
bind_congr (ok a, w) f g h = h a w
bind_congr (thrown e, w) f g h = refl

module _ {S : Type 0} (P : Panel S) (servers : List VpnNode) (clients : List Client) where
  delete_lines-filter :
      (anchor : Option Text) (edges : List Edge) (w : World S MapState)
      → delete_lines P servers clients anchor edges w
        ≡ delete_lines P servers clients none (filter (in_selection anchor) edges) w
  unfolding delete_lines for_each filter in_selection
  delete_lines-filter anchor [] w = refl
  delete_lines-filter anchor (e ∷ es) w = elim (Bool-cases (in_selection anchor e)) [
    | inl inside ↦ rw inside (
        bind_congr (delete_line P servers clients (line_of e) w) _ _
          (λ a v. delete_lines-filter anchor es v))
    | inr outside ↦ rw outside (delete_lines-filter anchor es w)
  ]

  -- With a card selected, deleting lines does to the backend, to the state and to the page what
  -- deleting only the lines that touch the selection's anchor does with no card selected.
  on_edges_delete-selection :
      (anchor : Option Text) (removed : List Edge) (w : World S MapState)
      → on_edges_delete P servers clients anchor removed w
        ≡ on_edges_delete P servers clients none (filter (in_selection anchor) removed) w
  unfolding on_edges_delete
  on_edges_delete-selection anchor removed w = rw (delete_lines-filter anchor removed w)
