-- ===== src/Scrollbar.antt =====
-- gui/scrollbar.c and include/scrollbar.h: where the thumb stands, and where a drag scrolls to. The
-- drawing is left out.
pub mod Drag
use kernel_basic.Prelude.{ℕ, Bool, true, false, not, List, if◌then◌else◌}
use kernel_basic.Prelude.Int.{ℤ, pos, negsuc, ◌+ℤ◌, ◌-ℤ◌, ◌*ℤ◌, ◌/ℤ◌, ltb_ℤ, leb_ℤ}
use kernel_basic.Rect.{Rect, rect_contains_point}

-- `scrollbar_st`
pub record Scrollbar : Type 0 where
  pub rect : Rect
  pub total : ℤ
  pub visible : ℤ
  pub position : ℤ
  pub dragging : Bool

unfoldable pub scrollbar_thumb_rect : Scrollbar → Rect
scrollbar_thumb_rect sb =
    let track_h = sb.rect.h in
    let total = if ltb_ℤ (pos 0) sb.total then sb.total else pos 1 in
    let thumb_h = sb.visible *ℤ track_h /ℤ total in
    let thumb_h = if ltb_ℤ thumb_h (pos 8) then pos 8 else thumb_h in
    let thumb_h = if ltb_ℤ track_h thumb_h then track_h else thumb_h in
    let max_pos = sb.total -ℤ sb.visible in
    let thumb_y =
      if ltb_ℤ (pos 0) max_pos
      then sb.rect.y +ℤ (track_h -ℤ thumb_h) *ℤ sb.position /ℤ max_pos
      else sb.rect.y in
    record { x = sb.rect.x; y = thumb_y; w = sb.rect.w; h = thumb_h }

unfoldable pub scrollbar_hit_test : Scrollbar → ℤ → ℤ → ℤ
scrollbar_hit_test sb x y =
    if not (rect_contains_point sb.rect x y)
    then negsuc 0
    else if leb_ℤ sb.total sb.visible
    then pos 0
    else if rect_contains_point (scrollbar_thumb_rect sb) x y
    then pos 1
    else pos 0

-- `position` clamped to the range from 0 to `max_pos`.
unfoldable pub clamp_pos : (max_pos position : ℤ) → ℤ
clamp_pos max_pos position =
    let position = if ltb_ℤ position (pos 0) then pos 0 else position in
    if ltb_ℤ max_pos position then max_pos else position

unfoldable pub scrollbar_drag_to : Scrollbar → ℤ → Scrollbar
unfolding clamp_pos
scrollbar_drag_to sb y =
    let max_pos = sb.total -ℤ sb.visible in
    let thumb = scrollbar_thumb_rect sb in
    let usable = sb.rect.h -ℤ thumb.h in
    let rel = y -ℤ sb.rect.y -ℤ thumb.h /ℤ pos 2 in
    if leb_ℤ max_pos (pos 0)
    then record sb { position = pos 0 }
    else if leb_ℤ usable (pos 0)
    then record sb { position = pos 0 }
    else record sb { position = clamp_pos max_pos (rel *ℤ max_pos /ℤ usable) }
