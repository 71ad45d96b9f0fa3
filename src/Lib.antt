-- ===== src/Lib.antt =====
-- Verification of the web panel of beauty-awg, the program that gives a household's devices access
-- to its locations over AmneziaWG tunnels, with the part of the backend's store that the panel's
-- network map and limits editor call.
--
-- Parts and how they interact. web/app/page.tsx polls the backend and keeps the locations, the
-- devices, the links and the layout. The map, web/app/components/AccessGraph.tsx, draws them as
-- cards and lines and turns gestures into calls of web/app/lib/api.ts; a group of devices is an
-- entry of the layout that the panel alone knows, web/app/lib/groups.ts. Each change of access goes
-- through internal/api/handlers.go to internal/store. Errors come back as text and are reworded by
-- web/app/lib/errors.ts.
--
-- Files. A module models the source that is named beside it; its children hold its theorems, and a
-- child Tests holds runs at concrete data, which Samples shares. A .tsx file that is named alone is
-- in web/app/components, and page.tsx is in web/app.
--   Base, Json      shared names, lists, sets, dictionaries, whole numbers, 32-bit words, JSON values
--   Number          floating point as a parameter, and fractions as one instance of it
--   Ui              what a window shows, as a list of its texts, fields and buttons
--   Api             web/app/lib/api.ts: the types, one constructor of Call for each call, Answer
--   Api/Http        the requests of those calls and the reading of a response (`req`)
--   Api/Effects     the panel as a parameter, thrown values, what a handler does to the page
--   Api/Grants      what a backend that keeps grants promises (GrantStore)
--   Errors          web/app/lib/errors.ts: `humanError`, one matcher for each regular expression
--   Groups          web/app/lib/groups.ts: seats, union of access, the plan of calls
--   Groups/Layout   the blob: `parseLayout`, `serializeLayout`
--   Theme, Toast    web/app/lib/theme.tsx, web/app/lib/toast.ts; Theme/Toggle is ThemeToggle.tsx
--   Modal           web/app/components/Modal.tsx: stack, focus, scrolling, keys
--   Graph           AccessGraph.tsx, the ids of cards and lines
--   Graph/Pairs, Graph/Relations        the lines and the transitions between arrow and bus
--   Graph/State, Graph/Membership       the layout's writer, groups, joining, leaving, drops
--   Graph/Access, Graph/Dialogs         connecting, deleting, the windows of lines and cards
--   Graph/Highlight, Graph/Cards        fading, where to land, the order and places of cards
--   Graph/Events, Graph/Windows         the canvas's handlers, the windows over it
--   Graph/CardView                      the cards of devices and locations
--   Bus, Random                         BusEdge.tsx: the swarms of particles and their generator;
--                                       its children model geometry, transitions, frames, drawing
--   Rules, Wizard, Picker               RulesModal.tsx, AddDeviceWizard.tsx, AccessPicker.tsx, the
--                                       window of the first two in a child Window
--   Dashboard, Dashboard/Shell          page.tsx: the poll and its state; the frame and the windows
--   Dashboard/Forms                     the small forms and web/middleware.ts
--   Views           a child for each of LocationsView.tsx, LinkModal.tsx, SharePanel.tsx,
--                   ConfigModal.tsx (Setup), GroupModal.tsx with GroupNode.tsx, DevicesView.tsx with
--                   ClientDetails.tsx, and the small windows that they share
--   Color           lib/color.ts, and ColorPickerModal.tsx in Color/Picker
--   Store, Store/Serving                internal/store/grant_rules.go, node_links.go, queries.go and
--                                       their handlers in internal/api/handlers.go
--
-- State and operations. A handler is a function into M S T A: S is the backend's state, T that of
-- the component, and the result is a value or what was thrown. `call P` asks the panel P, which is
-- any function of the call and the backend's state, so what holds for every P holds whatever the
-- network does. `attempt` is try/catch, `quietly` is `.catch(() => {})`, `both` and `exit_flags`
-- are Promise.all, `for_each` is a loop with await. What a handler does to the page (a toast, a
-- message, a reload, a line that is added) is an event of the world, in order. A handler runs to
-- its end before another starts; Graph/Membership/Interrupted takes the calls of `joinGroup` apart,
-- so that those of others come between them. useState and useRef of a component are fields of its
-- record, and a handler that reads props takes them as arguments.
--
-- Data. A text is the list of its UTF-16 code units. The map's coordinates are whole numbers: it
-- rounds the ones it saves. So are the numbers of a JSON value. Map and Set are an association list
-- and a list without repeats, in insertion order. parse_layout keeps the entries as JSON. IsPlain
-- and HasNoColon are what the backend's ids, UUIDs, are like: no character that separates the parts
-- of a line's id.
--
-- Loops are recursion on the list they walk. `decimal` takes digits on fuel: n + 1 is enough for n,
-- which has at most n + 1 digits. `hex_text` takes 14 digits, enough for any whole number below 2 ^
-- 53.
--
-- Parameters. Postgres and the size of what it stores, netip, the reconciliation of the tunnels and
-- the printing of errors are fields of Store's Platform; JSON.stringify is Stringify. The
-- arithmetic of floating point and the functions of Math are fields of Number, and a theorem that
-- needs more of them than the code that it is about has it as a named hypothesis. The clipboard,
-- the printing of a date, the clock and the sizes of cards are arguments. Tables are lists of rows,
-- and a transaction that fails gives the old tables back.
--
-- What a window shows is a list of texts, fields and buttons with what each button does; the
-- nesting of its elements, icons and most classes are left out.
--
-- Not modelled: styles, the colours of lines, React Flow's own state and its drag, timers' clocks,
-- the picture of a QR code; on the backend the creation of locations and devices, the rendering and
-- application of tunnels, the node agent and the installer.
pub mod Base
pub mod Json
pub mod Number
pub mod Errors
pub mod Api
pub mod Groups
pub mod Modal
pub mod Graph
pub mod Theme
pub mod Toast
pub mod Store
pub mod Rules
pub mod Wizard
pub mod Picker
pub mod Dashboard
pub mod Ui
pub mod Views
pub mod Color
pub mod Random
pub mod Bus
pub mod Samples
