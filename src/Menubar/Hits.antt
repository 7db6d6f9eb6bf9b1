-- ===== src/Menubar/Hits.antt =====
-- What a click on the menu bar of gui/menubar.c hits.
use mathlib.Core.Path.{subst}
use kernel_basic.Prelude.{
  ℕ, suc, ◌+◌, ◌<◌, ◌≡◌, refl, sym, ap, ◌⊎◌, inl, inr, Bool, true, false, ◌&&◌, ◌||◌, List, [], ◌∷◌,
  Option, none, some, length, arith, if_ind, take,
}
use kernel_basic.Prelude.Int.{ℤ, pos, ◌+ℤ◌, ltb_ℤ, leb_ℤ, ◌≤ℤ◌, ◌<ℤ◌, +ℤ_parts}
use kernel_basic.Menubar.{
  MenuEntry, Menubar, menubar_top_w, tops_w, menubar_top_x, hit_top_from, menubar_hit_top,
}

-- The label hit spans the place, in the bar.
abbrev pub Spans : Menubar → (x y : ℤ) → Option ℕ → Type 0
Spans mb x y none =
    (y <ℤ mb.rect.y)
    ⊎ (mb.rect.y +ℤ mb.rect.h ≤ℤ y)
    ⊎ (x <ℤ mb.rect.x)
    ⊎ (menubar_top_x mb (length mb.entries) ≤ℤ x)
Spans mb x y (some i) =
    (i < length mb.entries)
    × (menubar_top_x mb i ≤ℤ x)
    × (x <ℤ menubar_top_x mb (i + 1))
    × (mb.rect.y ≤ℤ y)
    × (y <ℤ mb.rect.y +ℤ mb.rect.h)

-- The same for the entries behind others that end at `cx`, `j` of them before the one hit.
abbrev SpansFrom : (i : ℕ) → (cx : ℤ) → List MenuEntry → (x : ℤ) → Option ℕ → Type 0
SpansFrom i cx es x none = (x <ℤ cx) ⊎ (cx +ℤ pos (tops_w es) ≤ℤ x)
SpansFrom i cx es x (some k) =
    (j : ℕ) × ((k ≡ i + j)
      × (j < length es)
      × (cx +ℤ pos (tops_w (take j es)) ≤ℤ x)
      × (x <ℤ cx +ℤ pos (tops_w (take (suc j) es))))

SpansFrom-cons :
    (i : ℕ) (cx : ℤ) (e : MenuEntry) (es : List MenuEntry) (x : ℤ) (o : Option ℕ)
    → (leb_ℤ cx x && ltb_ℤ x (cx +ℤ pos (menubar_top_w e))) ≡ false
    → SpansFrom (i + 1) (cx +ℤ pos (menubar_top_w e)) es x o
    → SpansFrom i cx (e ∷ es) x o
unfolding tops_w
SpansFrom-cons i cx e es x none out (inl h) = inl (ground (arith, out, h))
SpansFrom-cons i cx e es x none out (inr h) =
    let w = pos (menubar_top_w e) in
    inr (
      omega (
        arith,
        h,
        +ℤ_parts cx w,
        +ℤ_parts (cx +ℤ w) (pos (tops_w es)),
        +ℤ_parts cx (pos (menubar_top_w e + tops_w es)),
      ))
SpansFrom-cons i cx e es x (some k) out h =
    let w = pos (menubar_top_w e) in
    let before = pos (tops_w (take h.0 es)) in
    let upto = pos (tops_w (take (suc h.0) es)) in
    (
      suc h.0,
      (
        omega (arith, h.1.0),
        omega (arith, h.1.1),
        omega (
          arith,
          h.1.2,
          +ℤ_parts cx w,
          +ℤ_parts (cx +ℤ w) before,
          +ℤ_parts cx (pos (menubar_top_w e + tops_w (take h.0 es))),
        ),
        omega (
          arith,
          h.1.3,
          +ℤ_parts cx w,
          +ℤ_parts (cx +ℤ w) upto,
          +ℤ_parts cx (pos (menubar_top_w e + tops_w (take (suc h.0) es))),
        ),
      ),
    )

hit_top_from-SpansFrom :
    (i : ℕ) (cx : ℤ) (es : List MenuEntry) (x : ℤ) → SpansFrom i cx es x (hit_top_from i cx es x)
unfolding hit_top_from tops_w
hit_top_from-SpansFrom i cx [] x =
    if_ind (λ (b : Bool). (x <ℤ cx) ⊎ (cx +ℤ pos 0 ≤ℤ x)) (ltb_ℤ x cx) {x = true} {y = false}
      (λ e. inl (ground (arith, e))) (λ e. inr (ground (arith, e, +ℤ_parts cx (pos 0))))
hit_top_from-SpansFrom i cx (e ∷ es) x =
    let w = pos (menubar_top_w e) in
    if_ind (SpansFrom i cx (e ∷ es) x) (leb_ℤ cx x && ltb_ℤ x (cx +ℤ w))
      (λ h. (
        0,
        (
          omega arith,
          omega arith,
          ground (arith, h, +ℤ_parts cx (pos 0)),
          ground (arith, h, +ℤ_parts cx w, +ℤ_parts cx (pos (menubar_top_w e + 0))),
        ),
      ))
      (λ out. SpansFrom-cons i cx e es x _ out (hit_top_from-SpansFrom (i + 1) (cx +ℤ w) es x))

take-length : (es : List MenuEntry) → take (length es) es ≡ es
take-length [] = refl
take-length (e ∷ es) = ap (λ l. e ∷ l) (take-length es)

SpansFrom-Spans :
    (mb : Menubar) (x y : ℤ) (o : Option ℕ)
    → mb.rect.y ≤ℤ y
    → y <ℤ mb.rect.y +ℤ mb.rect.h
    → SpansFrom 0 mb.rect.x mb.entries x o
    → Spans mb x y o
unfolding menubar_top_x
SpansFrom-Spans mb x y none lo hi (inl h) = inr (inr (inl h))
SpansFrom-Spans mb x y none lo hi (inr h) =
    inr
      (inr (inr (subst (λ es. mb.rect.x +ℤ pos (tops_w es) ≤ℤ x) (sym (take-length mb.entries)) h)))
SpansFrom-Spans mb x y (some k) lo hi h =
    subst (λ i. Spans mb x y (some i)) {x = h.0} {y = k} (omega (arith, h.1.0))
      (h.1.1, h.1.2, at_next, lo, hi)
  where
    at_next : x <ℤ menubar_top_x mb (h.0 + 1)
    at_next = subst (λ i. x <ℤ menubar_top_x mb i) {x = suc h.0} {y = h.0 + 1} (omega arith) h.1.3

-- menubar_hit_top finds an entry of the bar whose label, laid out behind the labels before it,
-- begins at or before the place and ends behind it, in the height of the bar; where it finds none,
-- the place is above or below the bar, left of its first label, or at or behind the end of its
-- last one.
pub menubar_hit_top-Spans : (mb : Menubar) (x y : ℤ) → Spans mb x y (menubar_hit_top mb x y)
unfolding menubar_hit_top
menubar_hit_top-Spans mb x y =
    if_ind (Spans mb x y) (ltb_ℤ y mb.rect.y || leb_ℤ (mb.rect.y +ℤ mb.rect.h) y) (λ e. outside e)
      λ e.
        SpansFrom-Spans mb x y (hit_top_from 0 mb.rect.x mb.entries x) (ground (arith, e))
          (ground (arith, e)) (hit_top_from-SpansFrom 0 mb.rect.x mb.entries x)
  where
    outside : (ltb_ℤ y mb.rect.y || leb_ℤ (mb.rect.y +ℤ mb.rect.h) y) ≡ true → Spans mb x y none
    outside e =
        if_ind (λ (b : Bool). Spans mb x y none) (ltb_ℤ y mb.rect.y) {x = true} {y = false}
          (λ o. inl (ground (arith, o))) (λ o. inr (inl (ground (arith, e, o))))
