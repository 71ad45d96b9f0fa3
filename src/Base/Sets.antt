-- ===== src/Base/Sets.antt =====
-- A JavaScript `Set` of strings: its entries in insertion order, each once.
use beauty_awg.Base.Tests.{if◌then◌else◌}
use beauty_awg.Base.Strings.{Text, ◌==◌, eq_iff, eq_refl}
use beauty_awg.Base.Lists.{filter, All}
use mathlib.Core.Logic.{◌≢◌}
use mathlib.Core.Path.{◌≡◌, refl, sym, ap, ◌∙◌}
use mathlib.Core.Bool.{Bool, true, false, ◌&&◌, ◌||◌}
use mathlib.Core.List.{List, [], ◌∷◌, ◌++◌, append-nil, append_assoc}
use native.Mathlib.Omega.{arith}

-- `xs.includes(a)`, and `s.has(a)`
unfoldable pub includes : List Text → Text → Bool
includes [] a = false
includes (x ∷ xs) a = x == a || includes xs a

-- `s.add(a)`
unfoldable pub add : List Text → Text → List Text
add s a = if includes s a then s else s ++ (a ∷ [])

unfoldable pub add_all : List Text → List Text → List Text
unfolding add
add_all s [] = s
add_all s (x ∷ xs) = add_all (add s x) xs

-- `new Set(xs)`
unfoldable pub to_set : List Text → List Text
unfolding add_all
to_set xs = add_all [] xs

abbrev pub Nodup : List Text → Type 0
Nodup [] = Unit
Nodup (x ∷ xs) = (includes xs x ≡ false) × Nodup xs

pub includes-append :
    (xs ys : List Text) (a : Text) → includes (xs ++ ys) a ≡ (includes xs a || includes ys a)
unfolding includes
includes-append [] ys a = refl
includes-append (x ∷ xs) ys a = ground (arith, includes-append xs ys a)

pub includes-add : (s : List Text) (x a : Text) → includes (add s x) a ≡ (includes s a || x == a)
unfolding add includes
includes-add s x a =
    ground (arith, eq_iff x a, includes-append s (x ∷ []) a, λ (e : x ≡ a). ap (includes s) e)

pub includes-add_all :
    (s xs : List Text) (a : Text) → includes (add_all s xs) a ≡ (includes s a || includes xs a)
unfolding add_all includes
includes-add_all s [] a = ground arith
includes-add_all s (x ∷ xs) a = ground (arith, includes-add_all (add s x) xs a, includes-add s x a)

-- A set has the entries that it was made from.
pub includes-to_set : (xs : List Text) (a : Text) → includes (to_set xs) a ≡ includes xs a
unfolding to_set includes
includes-to_set xs a = includes-add_all [] xs a

pub Nodup-concat :
    (s : List Text) (x : Text) → Nodup s → includes s x ≡ false → Nodup (s ++ (x ∷ []))
unfolding includes
Nodup-concat [] x h k = (refl, tt)
Nodup-concat (y ∷ s) x (h, hs) k =
    ground (arith, Nodup-concat s x hs, includes-append s (x ∷ []) y, eq_iff x y, eq_iff y x)

pub add-Nodup : (s : List Text) (x : Text) → Nodup s → Nodup (add s x)
unfolding add
add-Nodup s x h = ground (arith, Nodup-concat s x h)

pub add_all-Nodup : (s xs : List Text) → Nodup s → Nodup (add_all s xs)
unfolding add_all
add_all-Nodup s [] h = h
add_all-Nodup s (x ∷ xs) h = add_all-Nodup (add s x) xs (add-Nodup s x h)

-- A set lists no entry twice.
pub to_set-Nodup : (xs : List Text) → Nodup (to_set xs)
unfolding to_set
to_set-Nodup xs = add_all-Nodup [] xs tt

pub includes-filter :
    (p : Text → Bool) (xs : List Text) (a : Text)
    → includes (filter p xs) a ≡ (includes xs a && p a)
unfolding includes filter
includes-filter p [] a = refl
includes-filter p (x ∷ xs) a =
    ground (arith, includes-filter p xs a, eq_iff x a, λ (e : x ≡ a). ap p e)

pub filter-Nodup : (p : Text → Bool) (xs : List Text) → Nodup xs → Nodup (filter p xs)
unfolding filter
filter-Nodup p [] h = tt
filter-Nodup p (x ∷ xs) (h, hs) = ground (arith, filter-Nodup p xs hs, includes-filter p xs x)

-- A list without repetitions is its own set.
add_all_of_Nodup :
    (s xs : List Text)
    → Nodup xs
    → ((a : Text) → includes xs a ≡ true → includes s a ≡ false)
    → add_all s xs ≡ s ++ xs
unfolding add_all includes add
add_all_of_Nodup s [] h k = sym (append-nil s)
add_all_of_Nodup s (x ∷ xs) (h, hs) k = rw (k x (rw (eq_refl x))) (
    add_all_of_Nodup (s ++ (x ∷ [])) xs hs (λ a m.
      ground
        (arith, includes-append s (x ∷ []) a, k a, eq_iff x a, λ (e : x ≡ a). ap (includes xs) e))
    ∙ append_assoc s (x ∷ []) xs)

pub to_set_of_Nodup : (xs : List Text) → Nodup xs → to_set xs ≡ xs
unfolding to_set includes
to_set_of_Nodup xs h = add_all_of_Nodup [] xs h (λ a m. refl)

pub Nodup-middle :
    (xs : List Text) (x : Text) (ys : List Text) → Nodup (xs ++ x ∷ ys) → includes xs x ≡ false
unfolding includes
Nodup-middle [] x ys h = refl
Nodup-middle (y ∷ xs) x ys (h, hs) =
    ground (arith, Nodup-middle xs x ys hs, includes-append xs (x ∷ ys) y, eq_iff y x, eq_iff x y)

pub includes_of_All : (xs : List Text) (a : Text) → All (λ x. x ≢ a) xs → includes xs a ≡ false
unfolding includes
includes_of_All [] a h = refl
includes_of_All (x ∷ xs) a (ne, h) = ground (arith, includes_of_All xs a h, eq_iff x a)
