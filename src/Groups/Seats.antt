-- ===== src/Groups/Seats.antt =====
-- The member stack fits the frame, and its cards do not touch.
use beauty_awg.Base.{ℕ, ◌+◌, ◌≤◌, ◌<◌, arith}
use beauty_awg.Groups.{
  member_seat, group_min_height, group_min_h, group_pad, group_pad_top, group_row,
}

-- Every seat of a group lies below the header and inside the frame, with the bottom padding to
-- spare, whatever the number of members. The frame is never lower than the smallest one, and a
-- joining member never lowers it.
member_seat_fits :
    (index count : ℕ)
    → index < count
    → (group_pad_top ≤ (member_seat index).y)
      × ((member_seat index).y + group_row + group_pad ≤ group_min_height count)
      × (group_min_h ≤ group_min_height count)
      × (group_min_height count ≤ group_min_height (count + 1))
unfolding member_seat group_min_height
member_seat_fits index count h = grind arith

-- The seats of two members of a group lie at least a row apart.
pub member_seat_apart : (i j : ℕ) → i < j → (member_seat i).y + group_row ≤ (member_seat j).y
unfolding member_seat
member_seat_apart i j h = grind arith
