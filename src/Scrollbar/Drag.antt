-- ===== src/Scrollbar/Drag.antt =====
-- `scrollbar_drag_to` of gui/scrollbar.c and its range.
use kernel_basic.Prelude.{◌≡◌, false, if◌then◌else◌, arith, if_ind}
use kernel_basic.Prelude.Int.{ℤ, pos, ◌-ℤ◌, ◌*ℤ◌, ◌/ℤ◌, ◌≤ℤ◌, leb_ℤ}
use kernel_basic.Scrollbar.{Scrollbar, scrollbar_thumb_rect, clamp_pos, scrollbar_drag_to}

-- The position is one of those that the units leave: 0 where all are visible.
abbrev pub InRange : Scrollbar → Type 0
InRange sb =
    (pos 0 ≤ℤ sb.position)
    × (sb.position
        ≤ℤ (if leb_ℤ (sb.total -ℤ sb.visible) (pos 0) then pos 0 else sb.total -ℤ sb.visible))

clamp_pos_in :
    (m p : ℤ)
    → leb_ℤ m (pos 0) ≡ false
    → (pos 0 ≤ℤ clamp_pos m p) × (clamp_pos m p ≤ℤ (if leb_ℤ m (pos 0) then pos 0 else m))
unfolding clamp_pos
clamp_pos_in m p h = (ground arith, ground arith)

zero_in : (m : ℤ) → (pos 0 ≤ℤ pos 0) × (pos 0 ≤ℤ (if leb_ℤ m (pos 0) then pos 0 else m))
zero_in m = (omega arith, ground arith)

-- Whatever the thumb is dragged to, the first visible unit is between 0 and the last position at
-- which the bar is full, and 0 where every unit is visible.
pub scrollbar_drag_to-InRange : (sb : Scrollbar) (y : ℤ) → InRange (scrollbar_drag_to sb y)
unfolding scrollbar_drag_to
scrollbar_drag_to-InRange sb y =
    let max_pos = sb.total -ℤ sb.visible in
    if_ind InRange (leb_ℤ max_pos (pos 0)) (λ _. zero_in max_pos)
      (λ h.
        if_ind InRange (leb_ℤ (sb.rect.h -ℤ (scrollbar_thumb_rect sb).h) (pos 0))
          (λ _. zero_in max_pos)
          (λ _.
            clamp_pos_in max_pos
              ((y -ℤ sb.rect.y -ℤ (scrollbar_thumb_rect sb).h /ℤ pos 2)
                *ℤ max_pos
                /ℤ (sb.rect.h -ℤ (scrollbar_thumb_rect sb).h))
              h))
