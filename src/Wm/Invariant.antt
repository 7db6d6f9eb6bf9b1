-- ===== src/Wm/Invariant.antt =====
-- The operations of gui/wm.c on its windows, and the pointers.
use mathlib.Core.Path.{subst}
use kernel_basic.Prelude.{
  ℕ, ◌≡◌, refl, sym, ap, ap₂, ◌∙◌, true, false, not, List, [], ◌∷◌, ◌++◌, Option, none, some, leb,
  ◌==◌, if◌then◌else◌, if_ind, length, arith,
}
use kernel_basic.Prelude.Int.{ℤ}
use kernel_basic.Rect.{Rect}
use kernel_basic.Wm.{max_windows, Window, is_minimized, is_maximized, AppId, Wm, is_win}
use kernel_basic.Wm.Windows.{
  find_window, remove_window, update_window, last_window, topmost_visible, wm_init, raise_found,
  wm_raise, wm_create_window, wm_close_window, minimize_fields, wm_minimize_window, restore_fields,
  wm_restore_window, focus_found, wm_focus_window,
}
use kernel_basic.Wm.Layout.{wm_cascade, wm_tile, count_visible, maximize_fields, wm_toggle_maximize}
use kernel_basic.Wm.Ids.{
  ids, elem, erase, Open, elem-erase, elem-raise, Distinct-erase, length-erase, length-ids,
  ids-append, ids-remove, ids-update, ids-cascade, ids-tile, Found, find_window-Found, At,
  find_window-At, last_window-Open, topmost_visible-Open,
}
use kernel_basic.Wm.Valid.{
  IsValid, Open-forget, DragOpen-forget, raise-Valid, create-Valid, focus-Valid, Matches-forget,
}

wm_init-IsValid : (s : Wm) → IsValid (wm_init s)
unfolding wm_init
wm_init-IsValid s = record {
  distinct = tt;
  few = omega arith;
  focused_open = tt;
  drag_open = tt;
  sysmenu_open = tt;
  matches = tt;
}

-- The list that `wm_raise` leaves.
ids-raise :
    (ws : List Window) (id : ℕ) (w : Window)
    → w.id ≡ id
    → ids (remove_window ws id ++ (w ∷ [])) ≡ erase (ids ws) id ++ (id ∷ [])
ids-raise ws id w e =
    ids-append (remove_window ws id) w ∙ ap₂ (λ l i. l ++ (i ∷ [])) (ids-remove ws id) e

raise_found-IsValid :
    (id : ℕ) (s : Wm) (o : Option Window)
    → Found (ids s.windows) o
    → At id o
    → IsValid s
    → IsValid (raise_found id s o)
unfolding raise_found
raise_found-IsValid id s none f a v = v
raise_found-IsValid id s (some w) f a v =
    rw (ids-raise s.windows id w a) (raise-Valid id (ap (elem (ids s.windows)) (sym a) ∙ f) v)

pub wm_raise-IsValid : (id : ℕ) (s : Wm) → IsValid s → IsValid (wm_raise id s)
unfolding wm_raise
wm_raise-IsValid id s v =
    raise_found-IsValid id s (find_window s.windows id) (find_window-Found s.windows id)
      (find_window-At s.windows id) v

-- A new window has an address that no window has.
pub wm_create_window-IsValid :
    (p : ℕ) (app : AppId) (title : List ℕ) (rect : Rect) (min_w min_h : ℤ) (s : Wm)
    → elem (ids s.windows) p ≡ false
    → IsValid s
    → IsValid (wm_create_window p app title rect min_w min_h s).1
unfolding wm_create_window
wm_create_window-IsValid p app title rect min_w min_h s fresh v =
    if_ind (λ (r : Option ℕ × Wm). IsValid r.1) (leb max_windows (length s.windows)) (λ _. v)
      λ room.
        if_ind (λ (r : Option ℕ × Wm). IsValid r.1) (p == 0) (λ _. v)
          λ _.
            rw (ids-append s.windows)
              (create-Valid p fresh (ground (arith, room, length-ids s.windows)) v)

pub wm_close_window-IsValid : (id : ℕ) (s : Wm) → IsValid s → IsValid (wm_close_window id s)
unfolding wm_close_window
wm_close_window-IsValid id s v = rw (ids-remove s.windows id) record {
  distinct = Distinct-erase (ids s.windows) id v.distinct;
  few = omega (arith, v.few, length-erase (ids s.windows) id);
  focused_open = focus_after s.focused v.focused_open;
  drag_open = DragOpen-forget (ids s.windows) s.drag_win s.mode id v.drag_open;
  sysmenu_open = Open-forget (ids s.windows) id s.last_sysmenu_win v.sysmenu_open;
  matches = Matches-forget s.drag_win s.mode id v.matches;
}
  where
    rest : Open (erase (ids s.windows) id) (last_window (remove_window s.windows id))
    rest =
        subst (λ l. Open l (last_window (remove_window s.windows id))) (ids-remove s.windows id)
          (last_window-Open (remove_window s.windows id))

    focus_after :
        (o : Option ℕ)
        → Open (ids s.windows) o
        → Open
            (erase (ids s.windows) id)
            (if is_win o id then last_window (remove_window s.windows id) else o)
    focus_after none h = tt
    focus_after (some x) h =
        if_ind (Open (erase (ids s.windows) id)) (x == id) (λ _. rest)
          (λ e. elem-erase (ids s.windows) id x (ground (arith, e)) ∙ h)

pub wm_minimize_window-IsValid :
    (w : Window) (s : Wm) → IsValid s → IsValid (wm_minimize_window w s)
unfolding wm_minimize_window
wm_minimize_window-IsValid w s v =
    let windows = update_window s.windows w.id minimize_fields in
    let same = ids-update s.windows w.id minimize_fields (λ _. refl) in
    if_ind IsValid (is_minimized w.state) (λ _. v)
      (λ _. rw same (
        focus-Valid (if is_win s.focused w.id then topmost_visible windows else s.focused)
          (if_ind (Open (ids s.windows)) (is_win s.focused w.id)
            (λ _. subst (λ l. Open l (topmost_visible windows)) same (topmost_visible-Open windows))
            (λ _. v.focused_open))
          v))

-- Windows whose fields change keep their addresses.
pub fields-IsValid :
    (s : Wm) (ws : List Window)
    → ids ws ≡ ids s.windows
    → IsValid s
    → IsValid (record s { windows = ws })
fields-IsValid s ws e v = rw e v

wm_restore_window-IsValid : (w : Window) (s : Wm) → IsValid s → IsValid (wm_restore_window w s)
unfolding wm_restore_window
wm_restore_window-IsValid w s v =
    if_ind IsValid (not (is_minimized w.state)) (λ _. v)
      λ _.
        wm_raise-IsValid w.id (record s { windows = update_window s.windows w.id restore_fields })
          (fields-IsValid s _ (ids-update s.windows w.id restore_fields (λ _. refl)) v)

focus_found-IsValid : (o : Option Window) (s : Wm) → IsValid s → IsValid (focus_found o s)
unfolding focus_found
focus_found-IsValid none s v = v
focus_found-IsValid (some w) s v =
    if_ind (λ t. IsValid (record t { dirty = true })) (is_minimized w.state)
      (λ _. wm_restore_window-IsValid w s v) (λ _. wm_raise-IsValid w.id s v)

pub wm_focus_window-IsValid : (id : ℕ) (s : Wm) → IsValid s → IsValid (wm_focus_window id s)
unfolding wm_focus_window
wm_focus_window-IsValid id s v = focus_found-IsValid (find_window s.windows id) s v

wm_cascade-IsValid : (s : Wm) → IsValid s → IsValid (wm_cascade s)
unfolding wm_cascade
wm_cascade-IsValid s v = rw (ids-cascade s.windows) v

wm_tile-IsValid : (s : Wm) → IsValid s → IsValid (wm_tile s)
unfolding wm_tile
wm_tile-IsValid s v =
    if_ind IsValid (count_visible s.windows == 0) (λ _. v) (λ _. rw (ids-tile _ _ _ _ s.windows) v)

pub wm_toggle_maximize-IsValid : (id : ℕ) (s : Wm) → IsValid s → IsValid (wm_toggle_maximize id s)
unfolding wm_toggle_maximize
wm_toggle_maximize-IsValid id s v =
    fields-IsValid s _ (ids-update s.windows id maximize_fields kept) v
  where
    kept : (w : Window) → (maximize_fields w).id ≡ w.id
    kept w = if_ind (λ (v : Window). v.id ≡ w.id) (is_maximized w.state) (λ _. refl) (λ _. refl)

-- Raising a window opens and closes none.
pub wm_raise-elem :
    (id j : ℕ) (s : Wm) → elem (ids (wm_raise id s).windows) j ≡ elem (ids s.windows) j
unfolding wm_raise raise_found
wm_raise-elem id j s =
    raised (find_window s.windows id) (find_window-Found s.windows id) (find_window-At s.windows id)
  where
    raised :
        (o : Option Window)
        → Found (ids s.windows) o
        → At id o
        → elem (ids (raise_found id s o).windows) j ≡ elem (ids s.windows) j
    raised none f a = refl
    raised (some w) f a =
        ap (λ l. elem l j) (ids-raise s.windows id w a)
        ∙ elem-raise (ids s.windows) id j (ap (elem (ids s.windows)) (sym a) ∙ f)
