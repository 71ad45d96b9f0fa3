-- ===== src/Modal.antt =====
-- web/app/components/Modal.tsx: the stack of open dialogs, the page behind them, and the keys. A
-- dialog is named by its token; a focusable element by a number.
pub mod Overflow
pub mod Keys
mod Tests
use beauty_awg.Base.{
  ℕ, Bool, true, false, ◌&&◌, ◌||◌, not, Option, none, some, List, [], ◌∷◌, ◌++◌, Text, codes, eqb,
  find, if◌then◌else◌,
}

-- What the effect of a mounted dialog keeps for its cleanup.
pub record Frame : Type 0 where
  pub token : ℕ
  pub prev_overflow : Text
  pub restore_to : Option ℕ

pub record Page : Type 0 where
  pub stack : List ℕ
  pub frames : List Frame
  -- `document.body.style.overflow`
  pub overflow : Text
  -- `document.activeElement`
  pub focused : Option ℕ

pub record Control : Type 0 where
  pub element : ℕ
  -- It has the attribute `data-modal-close`.
  pub closes : Bool

head : List Control → Option Control
head [] = none
head (c ∷ cs) = some c

control_element : Option Control → Option ℕ → Option ℕ
control_element none panel = panel
control_element (some c) panel = some c.element

-- The control to focus: the first that does not close, else the first, else the panel.
first_control : List Control → Option ℕ → Option ℕ
unfolding head control_element
first_control controls panel = elim (find (λ c. not c.closes) controls) [
  | some c ↦ some c.element
  | none ↦ control_element (head controls) panel
]

-- `(first ?? panel)?.focus()`: without a target the focus stays.
move_focus : Option ℕ → Option ℕ → Option ℕ
move_focus none old = old
move_focus (some e) old = some e

-- The effect that mounts a dialog with these controls.
unfoldable pub mount : ℕ → List Control → Option ℕ → Page → Page
unfolding first_control move_focus
mount me controls panel p = record {
  stack = p.stack ++ (me ∷ []);
  frames = record { token = me; prev_overflow = p.overflow; restore_to = p.focused } ∷ p.frames;
  overflow = codes "hidden";
  focused = move_focus (first_control controls panel) p.focused;
}

-- `stack.splice(stack.indexOf(me), 1)`, if `me` is there.
unfoldable pub splice : ℕ → List ℕ → List ℕ
splice me [] = []
splice me (t ∷ ts) = if eqb t me then ts else t ∷ splice me ts

unfoldable pub frame_of : ℕ → List Frame → Option Frame
frame_of me frames = find (λ f. eqb f.token me) frames

drop_frame : ℕ → List Frame → List Frame
drop_frame me [] = []
drop_frame me (f ∷ fs) = if eqb f.token me then fs else f ∷ drop_frame me fs

abbrev restore_overflow : List ℕ → Text → Text → Text
restore_overflow [] prev now = prev
restore_overflow (t ∷ ts) prev now = now

-- The cleanup of the effect that mounted `me`; a dialog that is not mounted has none.
unfoldable pub unmount : ℕ → Page → Page
unfolding splice frame_of drop_frame move_focus
unmount me p = elim (frame_of me p.frames) [
  | none ↦ p
  | some f ↦
      let stack = splice me p.stack in
      record {
        stack = stack;
        frames = drop_frame me p.frames;
        overflow = restore_overflow stack f.prev_overflow p.overflow;
        focused = move_focus f.restore_to p.focused;
      }
]

pub data Key : Type 0 where
  escape : Key
  tab : Bool → Key
  other_key : Key

-- What the key listener of a dialog sees: whether its panel is there, its visible controls, the
-- focused element, and whether the panel contains it.
pub record Panel : Type 0 where
  pub present : Bool
  pub items : List ℕ
  pub active : Option ℕ
  pub contains : Bool

pub data Reaction : Type 0 where
  -- The browser goes on as usual.
  nothing : Reaction
  close : Reaction
  focus : ℕ → Reaction

last_of : ℕ → List ℕ → ℕ
last_of x [] = x
last_of x (y ∷ ys) = last_of y ys

unfoldable pub is_top : List ℕ → ℕ → Bool
is_top [] me = false
is_top (t ∷ []) me = eqb t me
is_top (t ∷ u ∷ ts) me = is_top (u ∷ ts) me

is_active : Option ℕ → ℕ → Bool
is_active none e = false
is_active (some a) e = eqb a e

on_tab : Bool → Panel → List ℕ → Reaction
unfolding last_of is_active
on_tab shift d [] = nothing
on_tab shift d (first ∷ rest) =
    if shift && (is_active d.active first || not d.contains)
    then focus (last_of first rest)
    else if not shift && is_active d.active (last_of first rest)
    then focus first
    else nothing

-- `onKeyDown` of the dialog `me`.
unfoldable pub on_key_down : List ℕ → ℕ → Key → Panel → Reaction
unfolding is_top on_tab
on_key_down stack me escape d = if is_top stack me then close else nothing
on_key_down stack me (tab shift) d =
    if is_top stack me && d.present then on_tab shift d d.items else nothing
on_key_down stack me other_key d = nothing
