-- ===== src/Groups.antt =====
-- web/app/lib/groups.ts: the groups of the network map, their seats, and what they grant.
pub mod Plan
pub mod Seats
pub mod Grants
pub mod Layout
mod Tests
use beauty_awg.Base.{
  ℕ, ◌+◌, ◌*◌, max, Bool, not, Option, none, some, List, [], ◌∷◌, ◌++◌, if◌then◌else◌, Text, ◌==◌,
  starts_with, codes, filter, find,
}
use beauty_awg.Base.Int.{ℤ}
use beauty_awg.Base.Sets
use beauty_awg.Base.Dict
use beauty_awg.Base.Dict.{Dict}

-- An absent optional field is `none`.
pub record Group : Type 0 where
  pub id : Text
  pub name : Text
  pub w : Option ℤ
  pub h : Option ℤ
  pub color : Option Text
  pub members : List Text

abbrev pub group_min_w : ℕ
group_min_w = 200

abbrev pub group_min_h : ℕ
group_min_h = 130

abbrev pub group_def_w : ℕ
group_def_w = 250

abbrev pub group_def_h : ℕ
group_def_h = 230

abbrev pub group_pad_top : ℕ
group_pad_top = 40

abbrev pub group_pad : ℕ
group_pad = 12

abbrev pub group_row : ℕ
group_row = 56

pub record Seat : Type 0 where
  pub x : ℕ
  pub y : ℕ

unfoldable pub member_seat : ℕ → Seat
member_seat index = record { x = group_pad; y = group_pad_top + index * group_row }

unfoldable pub group_min_height : ℕ → ℕ
group_min_height count = max group_min_h (group_pad_top + count * group_row + group_pad)

-- "g:"
unfoldable pub gid : Text → Text
gid id = b'g' ∷ b':' ∷ id

unfoldable pub is_group_id : Text → Bool
unfolding starts_with
is_group_id rf_id = starts_with rf_id (b'g' ∷ b':' ∷ [])

-- The group that a client belongs to, if any.
unfoldable pub group_of : List Group → Text → Option Group
group_of groups client_id = find (λ g. Sets.includes g.members client_id) groups

unfoldable pub members_of : List Group → List Text
members_of [] = []
members_of (g ∷ gs) = g.members ++ members_of gs

unfoldable pub grouped_client_ids : List Group → List Text
unfolding members_of
grouped_client_ids groups = Sets.to_set (members_of groups)

-- `clientGrants.get(m) ?? []`
unfoldable pub grants_of : Dict (List Text) → Text → List Text
grants_of grants m = elim (Dict.lookup m grants) [ none ↦ [] | some nodes ↦ nodes ]

-- The loop of `groupGrants` over the members left, from the set that is built.
unfoldable pub group_grants_from : List Text → List Text → Dict (List Text) → List Text
group_grants_from out [] grants = out
group_grants_from out (m ∷ ms) grants =
    group_grants_from (Sets.add_all out (grants_of grants m)) ms grants

unfoldable pub group_grants : Group → Dict (List Text) → List Text
group_grants g grants = group_grants_from [] g.members grants

pub record SyncPlan : Type 0 where
  pub to_add : List Text
  pub to_remove : List Text

unfoldable pub sync_plan : List Text → List Text → SyncPlan
sync_plan target current =
    let t = Sets.to_set target in
    let c = Sets.to_set current in
    record {
      to_add = filter (λ n. not (Sets.includes c n)) t;
      to_remove = filter (λ n. not (Sets.includes t n)) c;
    }
