-- ===== src/Views/Windows.antt =====
-- ConfirmModal.tsx, EmptyState.tsx, RenameModal.tsx and LocationSettings.tsx: what they show.
use beauty_awg.Base.{false, List, [], ◌∷◌, ◌++◌, Text, codes, truthy}
use beauty_awg.Ui.{Item, title, prose, hint, field, button, shown_if, Allows}

-- `xs.join(", ")`
unfoldable pub join_list : List Text → Text
join_list [] = []
join_list (x ∷ []) = x
join_list (x ∷ y ∷ ys) = x ++ (codes ", " ++ join_list (y ∷ ys))

module _ {A : Type 0} where
  -- `ConfirmModal`; the button confirms and closes.
  unfoldable pub confirm_view : Text → Text → Text → A → A → List (Item A)
  confirm_view name body label confirm close =
      title name ∷ shown_if (truthy body) (prose body ∷ [])
      ++ (button (codes "Cancel") false close ∷ button label false confirm ∷ [])

  -- `EmptyState`, with its icon left out.
  unfoldable pub empty_view : Text → Text → Text → A → List (Item A)
  empty_view name body label action = title name ∷ prose body ∷ button label false action ∷ []

  -- `LocationSettings`, with the text of its fields.
  unfoldable pub settings_view : Text → Text → List (Item A)
  settings_view dns domains =
      title (codes "Name lookup")
      ∷ hint (codes "Optional. Lets devices reach machines here by name instead of by address.")
      ∷ field (codes "Router or DNS address at this location") dns false
      ∷ field (codes "Names it answers for") domains false
      ∷ []

  pub confirm_view-Allows :
      (P : A → Type 0) (name body label : Text) (confirm close : A)
      → P confirm
      → P close
      → Allows P (confirm_view name body label confirm close)
  unfolding confirm_view
  confirm_view-Allows P name [] label confirm close h k = (k, (h, tt))
  confirm_view-Allows P name (c ∷ body) label confirm close h k = (k, (h, tt))
