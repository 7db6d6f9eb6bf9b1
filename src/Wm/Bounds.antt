-- ===== src/Wm/Bounds.antt =====
-- Where a drag, a resize and the tiling of gui/wm.c may put a window.
use kernel_basic.Prelude.{ℕ, ◌-◌, ◌≡◌, ◌⊎◌, inl, inr, Bool-cases, if_ind, arith}
use kernel_basic.Prelude.Int.{
  ℤ, pos, ◌+ℤ◌, ◌-ℤ◌, ltb_ℤ, ◌≤ℤ◌, ◌<ℤ◌, +ℤ_parts, -ℤ_parts, eq_of_parts,
}
use mathlib.Core.Path.{subst}
use kernel_basic.Rect.{Rect}
use kernel_basic.Mouse.{screen_w}
use kernel_basic.Wm.{ResizeEdge}
use kernel_basic.Wm.Layout.{
  at_least, at_most, desktop_h, drag_rect, keep_size, pull_edge, resize_rect,
}

-- A value between two limits.
abbrev pub Between : (lo hi v : ℤ) → Type 0
Between lo hi v = lo ≤ℤ v × v ≤ℤ hi

clamp-Between : (v : ℤ) (hi : ℕ) → Between (pos 0) (pos hi) (at_most (at_least v (pos 0)) (pos hi))
clamp-Between v hi = (ground arith, ground arith)

-- A place held between 0 and a limit: the one wanted, or the limit that it passes.
abbrev pub HeldAt : (hi : ℕ) → (wanted v : ℤ) → Type 0
HeldAt hi wanted v =
    Between (pos 0) (pos hi) v
    × ((v ≡ wanted) ⊎ ((wanted <ℤ pos 0 × v ≡ pos 0) ⊎ (pos hi <ℤ wanted × v ≡ pos hi)))

clamp-HeldAt : (v : ℤ) (hi : ℕ) → HeldAt hi v (at_most (at_least v (pos 0)) (pos hi))
clamp-HeldAt v hi = (
  clamp-Between v hi,
  elim (Bool-cases (ltb_ℤ v (pos 0))) [
    | inl e ↦ inr (inl (ground (arith, e), ground (arith, e)))
    | inr e ↦ elim (Bool-cases (ltb_ℤ (pos hi) v)) [
      | inl f ↦ inr (inr (ground (arith, f), ground (arith, e, f)))
      | inr f ↦ inl (ground (arith, e, f))
    ]
  ],
)

-- A window that keeps its hold on the mouse moves as the mouse does.
hold_moves : (x' x at : ℤ) → x' -ℤ (x -ℤ at) ≡ at +ℤ (x' -ℤ x)
hold_moves x' x at =
    eq_of_parts (x' -ℤ (x -ℤ at)) (at +ℤ (x' -ℤ x))
      (omega (arith, -ℤ_parts x' (x -ℤ at), -ℤ_parts x at, +ℤ_parts at (x' -ℤ x), -ℤ_parts x' x))

-- The place of a window whose title was held at (x, y), the mouse at (x', y').
pub drag_rect-HeldAt :
    (x y x' y' : ℤ) (r : Rect)
    → let d = drag_rect (x -ℤ r.x) (y -ℤ r.y) x' y' r in
      HeldAt (screen_w - 20) (r.x +ℤ (x' -ℤ x)) d.x × HeldAt (desktop_h - 20) (r.y +ℤ (y' -ℤ y)) d.y
unfolding drag_rect
drag_rect-HeldAt x y x' y' r =
    let held = λ (a b c : ℤ) (hi : ℕ).
      subst (λ u. HeldAt hi u (at_most (at_least (a -ℤ (b -ℤ c)) (pos 0)) (pos hi)))
        (hold_moves a b c) (clamp-HeldAt (a -ℤ (b -ℤ c)) hi) in
    (held x' x r.x (screen_w - 20), held y' y r.y (desktop_h - 20))

keep_size-fits : (at size floor : ℤ) (room : ℕ) → at +ℤ keep_size at size floor room ≤ℤ pos room
keep_size-fits at size floor room =
    let s = at_least size floor in
    if_ind (λ v. at +ℤ v ≤ℤ pos room) (ltb_ℤ (pos room) (at +ℤ s))
      (λ _. omega (arith, +ℤ_parts at (pos room -ℤ at), -ℤ_parts (pos room) at))
      (λ e. ground (arith, e))

-- The floor, unless the window reaches the edge of the room.
keep_size-floor :
    (at size floor : ℤ) (room : ℕ)
    → (floor ≤ℤ keep_size at size floor room) ⊎ (at +ℤ keep_size at size floor room ≡ pos room)
keep_size-floor at size floor room =
    let s = at_least size floor in
    if_ind (λ v. (floor ≤ℤ v) ⊎ (at +ℤ v ≡ pos room)) (ltb_ℤ (pos room) (at +ℤ s))
      (λ _. inr (
        eq_of_parts (at +ℤ (pos room -ℤ at)) (pos room)
          (omega (arith, +ℤ_parts at (pos room -ℤ at), -ℤ_parts (pos room) at))))
      (λ _. inl (ground arith))

-- What a resize gives: within the desktop, and no smaller than the floor except at its edge.
abbrev pub Resized : (min_w min_h : ℤ) → Rect → Type 0
Resized min_w min_h r =
    (r.x +ℤ r.w ≤ℤ pos screen_w)
    × (r.y +ℤ r.h ≤ℤ pos desktop_h)
    × ((min_w ≤ℤ r.w) ⊎ (r.x +ℤ r.w ≡ pos screen_w))
    × ((min_h ≤ℤ r.h) ⊎ (r.y +ℤ r.h ≡ pos desktop_h))

-- Whichever edge is pulled, however far, the resized window ends within the screen and above the
-- task bar, and it is as wide and as high as its minimum, or smaller only where it reaches that
-- end.
pub resize_rect-Resized :
    (edge : ResizeEdge) (dx dy min_w min_h : ℤ) (start : Rect)
    → Resized min_w min_h (resize_rect edge dx dy min_w min_h start)
unfolding resize_rect
resize_rect-Resized edge dx dy min_w min_h start =
    let r = pull_edge edge dx dy start in
    (
      keep_size-fits r.x r.w min_w screen_w,
      keep_size-fits r.y r.h min_h desktop_h,
      keep_size-floor r.x r.w min_w screen_w,
      keep_size-floor r.y r.h min_h desktop_h,
    )
