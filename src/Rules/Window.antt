-- ===== src/Rules/Window.antt =====
-- RulesModal.tsx: what the window of the limits shows.
use beauty_awg.Base.{
  ℕ, ◌+◌, Bool, false, List, [], ◌∷◌, ◌++◌, Text, codes, truthy, eqb, if◌then◌else◌,
}
use beauty_awg.Json.{decimal}
use beauty_awg.Api.{Rule, Proto, any_proto, tcp, udp}
use beauty_awg.Ui.{Item, title, prose, alert, field, button, switch, shown_if}
use beauty_awg.Rules.{Editor, Edit, add_rule, remove_rule, toggle_exit, catch_all}

pub data Press : Type 0 where
  edit : Edit → Press
  save_limits : Press
  close : Press
  -- `onRevoke`, where it is given.
  remove_access : Press

-- The label of the option that is chosen.
unfoldable pub proto_label : Proto → Text
proto_label any_proto = codes "Any"
proto_label tcp = codes "TCP"
proto_label udp = codes "UDP"

-- `r.port_from || ""`
unfoldable pub port_text : ℕ → Text
port_text n = if eqb n 0 then [] else decimal n

limit_name : ℕ → Text → Text
limit_name i part = codes "Limit " ++ (decimal (i + 1) ++ (codes ": " ++ part))

-- A row: its four fields and its button.
unfoldable pub rule_row : Bool → ℕ → Rule → List (Item Press)
unfolding proto_label port_text limit_name
rule_row exit i r =
    field (limit_name i (codes "address or range")) r.dest exit
    ∷ field (limit_name i (codes "traffic type")) (proto_label r.proto) exit
    ∷ field (limit_name i (codes "first port")) (port_text r.port_from) exit
    ∷ field (limit_name i (codes "last port")) (port_text r.port_to) exit
    ∷ button (codes "Remove limit " ++ decimal (i + 1)) exit (edit (remove_rule i))
    ∷ []

unfoldable pub rule_rows : Bool → ℕ → List Rule → List (Item Press)
unfolding rule_row
rule_rows exit i [] = []
rule_rows exit i (r ∷ rs) = rule_row exit i r ++ rule_rows exit (i + 1) rs

-- What is said of an empty list, once it is loaded.
unfoldable pub no_limits : Text → Bool → List Rule → List (Item Press)
no_limits node loaded [] = shown_if loaded (
    prose (
      codes "Everything on "
      ++ (node
          ++ (codes
                "’s network. Add a limit below if the device should only reach one machine — a printer or a NAS, say (write a single machine as 192.168.1.50/32). Entering "
              ++ (catch_all ++ codes " instead turns on the switch above."))))
    ∷ [])
no_limits node loaded (r ∷ rs) = []

-- The switch for all traffic.
unfoldable pub exit_switch : Text → Bool → List (Item Press)
exit_switch node exit =
    switch (codes "Browse the internet through " ++ node) exit (edit toggle_exit)
    ∷ prose (
        codes "Websites will see "
        ++ (node ++ codes "’s home internet address instead of the device’s own."))
    ∷ title (codes "What it can open")
    ∷ shown_if exit (
        prose (
          codes "Not used while everything goes through "
          ++ (node
              ++ (codes " — that already covers the whole network. Turn the switch off to limit it "
                  ++ codes "to specific addresses again.")))
        ∷ [])

-- The window's foot; `can_revoke` is whether `onRevoke` is given.
unfoldable pub foot : Bool → Bool → List (Item Press)
foot can_revoke busy =
    shown_if can_revoke (button (codes "Remove access entirely") false remove_access ∷ [])
    ++ (button (codes "Cancel") false close
        ∷ button (if busy then codes "Saving…" else codes "Save") busy save_limits
        ∷ [])

unfoldable pub rules_view : Text → Text → Bool → Editor → List (Item Press)
unfolding rule_rows no_limits exit_switch foot
rules_view client node can_revoke e =
    title (client ++ (codes " at " ++ node))
      ∷ prose (codes "Choose how much of this location the device is allowed to see.")
      ∷ shown_if (truthy e.err) (alert e.err ∷ [])
    ++ (exit_switch node e.exit
        ++ (no_limits node e.loaded e.rules
            ++ (rule_rows e.exit 0 e.rules
                ++ (button (codes "Add a limit") e.exit (edit add_rule) ∷ foot can_revoke e.busy))))
