-- ===== src/Wm/Restore.antt =====
-- A window of gui/wm.c that is minimized and then brought back.
use kernel_basic.Prelude.{
  ℕ, ◌≡◌, refl, sym, ap, ◌∙◌, true, false, List, [], ◌∷◌, ◌++◌, some, if◌then◌else◌, arith, ==_refl,
}
use kernel_basic.Wm.{Window, normal, is_minimized, Wm, is_win}
use kernel_basic.Wm.Windows.{
  find_window, remove_window, update_window, topmost_visible, raise_found, wm_raise,
  minimize_fields, wm_minimize_window, restore_fields, wm_restore_window, focus_found,
  wm_focus_window,
}
use kernel_basic.Wm.Ids.{ids, elem, Distinct, elem-erase_self, ids-remove, ids-update}
use kernel_basic.Wm.Valid.{IsValid}
use mathlib.Core.Path.{subst}

-- The window of which the fields change is the one found.
pub find-update :
    (ws : List Window) (id : ℕ) (f : Window → Window) (w : Window)
    → ((v : Window) → (f v).id ≡ v.id)
    → find_window ws id ≡ some w
    → find_window (update_window ws id f) id ≡ some (f w)
unfolding find_window update_window
find-update [] id f w k h = cc
find-update (x ∷ ws) id f w k h = ground (arith, h, k x, find-update ws id f w k)

-- A window behind others, none of which has its address.
find-last :
    (ws : List Window) (w : Window)
    → elem (ids ws) w.id ≡ false
    → find_window (ws ++ (w ∷ [])) w.id ≡ some w
unfolding find_window
find-last [] w h = rw (==_refl w.id) refl
find-last (x ∷ ws) w h = ground (arith, h, find-last ws w)

find-raise :
    (ws : List Window) (w : Window)
    → Distinct (ids ws)
    → find_window (remove_window ws w.id ++ (w ∷ [])) w.id ≡ some w
find-raise ws w d =
    find-last (remove_window ws w.id) w
      (ap (λ l. elem l w.id) (ids-remove ws w.id) ∙ elem-erase_self (ids ws) w.id d)

-- The window's record after both.
abbrev pub restored : Window → Window
restored w = restore_fields (minimize_fields w)

pub raise_found-some :
    (s : Wm) (w : Window)
    → Distinct (ids s.windows)
    → find_window s.windows w.id ≡ some w
    → find_window (wm_raise w.id s).windows w.id ≡ some w × (wm_raise w.id s).focused ≡ some w.id
unfolding wm_raise raise_found
raise_found-some s w d h = rw h (find-raise s.windows w d, refl)

restore-some :
    (s : Wm) (w : Window)
    → Distinct (ids s.windows)
    → is_minimized w.state ≡ true
    → find_window s.windows w.id ≡ some w
    → find_window (wm_focus_window w.id s).windows w.id ≡ some (restore_fields w)
      × (wm_focus_window w.id s).focused ≡ some w.id
unfolding wm_focus_window focus_found wm_restore_window
restore-some s w d m h =
    rw (h, m)
      (raise_found-some (record s { windows = update_window s.windows w.id restore_fields })
        (restore_fields w)
        (subst Distinct (sym (ids-update s.windows w.id restore_fields (λ _. refl))) d)
        (find-update s.windows w.id restore_fields w (λ _. refl) h))

minimize-focus :
    (s : Wm) (w : Window)
    → IsValid s
    → find_window s.windows w.id ≡ some w
    → is_minimized w.state ≡ false
    → let t = wm_focus_window w.id (wm_minimize_window w s) in
      find_window t.windows w.id ≡ some (restored w) × t.focused ≡ some w.id
unfolding wm_minimize_window
minimize-focus s w v h m =
    let windows = update_window s.windows w.id minimize_fields in
    let minimized_s : Wm = record s {
      windows = windows;
      focused = if is_win s.focused w.id then topmost_visible windows else s.focused;
    } in
    rw m (
      restore-some minimized_s (minimize_fields w)
        (subst Distinct (sym (ids-update s.windows w.id minimize_fields (λ _. refl))) v.distinct)
        refl (find-update s.windows w.id minimize_fields w (λ _. refl) h))

-- Where the pointers are in order, a normal open window that is minimized and then focused from
-- the task bar is open again, normal, at the place and size it had, and focused.
pub minimize-focus_rect :
    (s : Wm) (w : Window)
    → IsValid s
    → find_window s.windows w.id ≡ some w
    → w.state ≡ normal
    → let t = wm_focus_window w.id (wm_minimize_window w s) in
      find_window t.windows w.id ≡ some (record w { restore_rect = w.rect; restore_state = normal })
      × t.focused ≡ some w.id
minimize-focus_rect s w v h n =
    let both = minimize-focus s w v h (ap is_minimized n) in (both.0 ∙ ap some (rw n refl), both.1)
