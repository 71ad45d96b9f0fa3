-- ===== src/Theme/Laws.antt =====
-- The boot script against the provider, and the stored choice.
use beauty_awg.Base.{
  ◌≡◌, ◌↔◌, ◌⊎◌, Bool, true, false, Option, none, some, [], arith, Text, codes, ◌==◌, eq_iff,
}
use beauty_awg.Theme.{
  Choice, Storage, blocked, stored, window, read_stored, system_prefers_dark, resolve, provide,
  theme_of, boot, set_choice, Provider,
}

-- The stored text is one that the panel writes, or the empty one.
abbrev pub IsKnown : Text → Type 0
IsKnown v = (v ≡ []) ⊎ ((v ≡ codes "system") ⊎ ((v ≡ codes "light") ⊎ (v ≡ codes "dark")))

-- Where the two palettes are the same: with nothing stored or a known text, always; with another
-- text, if the system prefers light; with storage blocked, if it prefers dark.
abbrev pub Agrees : Storage → Bool → Type 0
Agrees blocked prefers_dark = prefers_dark ≡ true
Agrees (stored none) prefers_dark = Unit
Agrees (stored (some v)) prefers_dark = IsKnown v ⊎ (prefers_dark ≡ false)

boot_text :
    (v : Text) (prefers_dark : Bool)
    → (boot (stored (some v)) prefers_dark
        ≡ theme_of (provide (window (stored (some v)) prefers_dark)))
      ↔ (IsKnown v ⊎ (prefers_dark ≡ false))
unfolding boot theme_of provide read_stored system_prefers_dark codes
boot_text v prefers_dark =
    ground (arith, eq_iff v (codes "light"), eq_iff v (codes "dark"), eq_iff v (codes "system"))

-- The palette that the boot script paints is the one that the provider resolves on its first
-- render exactly when nothing or a known text is stored, or another text while the system prefers
-- light, or storage is blocked while it prefers dark.
pub boot-provide_iff :
    (s : Storage) (prefers_dark : Bool)
    → (boot s prefers_dark ≡ theme_of (provide (window s prefers_dark))) ↔ Agrees s prefers_dark
unfolding boot theme_of provide read_stored system_prefers_dark
boot-provide_iff blocked p = ground arith
boot-provide_iff (stored none) p = ground arith
boot-provide_iff (stored (some v)) p = boot_text v p

-- Where storage works, a choice that is made is the one that the next visit reads, on any system.
pub read_stored-set_choice :
    (c : Choice) (p : Provider) (v : Option Text) (prefers_dark : Bool)
    → (read_stored (window (set_choice c p (stored v)).1 prefers_dark) ≡ c)
      × (boot (set_choice c p (stored v)).1 prefers_dark ≡ resolve c prefers_dark)
unfolding read_stored set_choice boot resolve codes ◌==◌
read_stored-set_choice c p v prefers_dark = ground arith
