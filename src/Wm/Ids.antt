-- ===== src/Wm/Ids.antt =====
-- The addresses of the windows of gui/wm.c, as a list.
use kernel_basic.Prelude.{
  ℕ, zero, suc, ◌+◌, ◌≤◌, ◌≡◌, refl, ap, ◌∙◌, Bool, true, false, ◌||◌, List, [], ◌∷◌, ◌++◌, Option,
  none, some, ◌==◌, if◌then◌else◌, if_ind, length, get_elem?, arith, ==→≡,
}
use kernel_basic.Prelude.Int.{ℤ}
use kernel_basic.Wm.{Window, is_minimized}
use kernel_basic.Wm.Windows.{
  find_window, remove_window, update_window, last_window, topmost_visible,
}
use kernel_basic.Wm.Frame.{wm_hit_test}
use kernel_basic.Wm.Clicks.{hit_window, is_hit}
use kernel_basic.Wm.Layout.{cascade_from, tile_from}

abbrev pub ids : List Window → List ℕ
ids [] = []
ids (w ∷ ws) = w.id ∷ ids ws

abbrev pub elem : List ℕ → ℕ → Bool
elem [] id = false
elem (x ∷ l) id = x == id || elem l id

abbrev pub erase : List ℕ → ℕ → List ℕ
erase [] id = []
erase (x ∷ l) id = if x == id then l else x ∷ erase l id

-- No address stands twice.
abbrev pub Distinct : List ℕ → Type 0
Distinct [] = Unit
Distinct (x ∷ l) = elem l x ≡ false × Distinct l

-- A pointer is null or leads to an open window.
abbrev pub Open : List ℕ → Option ℕ → Type 0
Open l none = Unit
Open l (some id) = elem l id ≡ true

pub elem-append : (l m : List ℕ) (id : ℕ) → elem (l ++ m) id ≡ (elem l id || elem m id)
elem-append [] m id = refl
elem-append (x ∷ l) m id = ground (arith, elem-append l m id)

pub elem-erase : (l : List ℕ) (a id : ℕ) → (a == id) ≡ false → elem (erase l a) id ≡ elem l id
elem-erase [] a id h = refl
elem-erase (x ∷ l) a id h = ground (arith, h, elem-erase l a id h)

pub elem-erase_self : (l : List ℕ) (a : ℕ) → Distinct l → elem (erase l a) a ≡ false
elem-erase_self [] a d = refl
elem-erase_self (x ∷ l) a d = ground (arith, d.0, elem-erase_self l a d.1)

-- A window that is moved to the end stays, and so do the others.
pub elem-raise :
    (l : List ℕ) (a id : ℕ) → elem l a ≡ true → elem (erase l a ++ (a ∷ [])) id ≡ elem l id
elem-raise l a id h =
    ground (
      arith,
      elem-append (erase l a) (a ∷ []) id,
      elem-erase l a id,
      h,
      ap (elem l) {x = a} {y = id},
    )

pub Distinct-erase : (l : List ℕ) (a : ℕ) → Distinct l → Distinct (erase l a)
Distinct-erase [] a d = tt
Distinct-erase (x ∷ l) a d =
    if_ind Distinct (x == a) (λ _. d.1)
      (λ e. (elem-erase l a x (ground (arith, e)) ∙ d.0, Distinct-erase l a d.1))

pub Distinct-append :
    (l : List ℕ) (a : ℕ) → Distinct l → elem l a ≡ false → Distinct (l ++ (a ∷ []))
Distinct-append [] a d h = (refl, tt)
Distinct-append (x ∷ l) a d h =
    (ground (arith, elem-append l (a ∷ []) x, d.0, h), Distinct-append l a d.1 (ground (arith, h)))

pub length-erase : (l : List ℕ) (a : ℕ) → length (erase l a) ≤ length l
length-erase [] a = omega arith
length-erase (x ∷ l) a =
    if_ind (λ m. length m ≤ length (x ∷ l)) (x == a) (λ _. omega arith)
      (λ _. omega (arith, length-erase l a))

pub length-erase_member : (l : List ℕ) (a : ℕ) → elem l a ≡ true → length (erase l a) + 1 ≡ length l
length-erase_member [] a h = cc
length-erase_member (x ∷ l) a h =
    if_ind (λ m. length m + 1 ≡ length (x ∷ l)) (x == a) (λ _. omega arith)
      (λ e. omega (arith, length-erase_member l a (ground (arith, h, e))))

pub length-ids : (ws : List Window) → length (ids ws) ≡ length ws
length-ids [] = refl
length-ids (w ∷ ws) = omega (arith, length-ids ws)

pub ids-append : (ws : List Window) (w : Window) → ids (ws ++ (w ∷ [])) ≡ ids ws ++ (w.id ∷ [])
ids-append [] w = refl
ids-append (x ∷ ws) w = ap (λ l. x.id ∷ l) (ids-append ws w)

pub ids-remove : (ws : List Window) (id : ℕ) → ids (remove_window ws id) ≡ erase (ids ws) id
unfolding remove_window
ids-remove [] id = refl
ids-remove (w ∷ ws) id = ground (arith, ids-remove ws id)

pub ids-update :
    (ws : List Window) (id : ℕ) (f : Window → Window)
    → ((w : Window) → (f w).id ≡ w.id)
    → ids (update_window ws id f) ≡ ids ws
unfolding update_window
ids-update [] id f h = refl
ids-update (w ∷ ws) id f h =
    if_ind (λ v. ids v ≡ ids (w ∷ ws)) (w.id == id) (λ _. ap (λ i. i ∷ ids ws) (h w))
      (λ _. ap (λ l. w.id ∷ l) (ids-update ws id f h))

pub ids-cascade : (ws : List Window) (x y : ℤ) → ids (cascade_from x y ws) ≡ ids ws
unfolding cascade_from
ids-cascade [] x y = refl
ids-cascade (w ∷ ws) x y =
    if_ind (λ v. ids v ≡ ids (w ∷ ws)) (is_minimized w.state)
      (λ _. ap (λ l. w.id ∷ l) (ids-cascade ws x y)) (λ _. ap (λ l. w.id ∷ l) (ids-cascade ws _ _))

pub ids-tile :
    (idx cols cell_w cell_h : ℕ) (ws : List Window)
    → ids (tile_from idx cols cell_w cell_h ws) ≡ ids ws
unfolding tile_from
ids-tile idx cols cell_w cell_h [] = refl
ids-tile idx cols cell_w cell_h (w ∷ ws) =
    if_ind (λ v. ids v ≡ ids (w ∷ ws)) (is_minimized w.state)
      (λ _. ap (λ l. w.id ∷ l) (ids-tile idx cols cell_w cell_h ws))
      (λ _. ap (λ l. w.id ∷ l) (ids-tile (idx + 1) cols cell_w cell_h ws))

-- A window that was found is open.
abbrev pub Found : List ℕ → Option Window → Type 0
Found l none = Unit
Found l (some w) = elem l w.id ≡ true

Found-cons : (l : List ℕ) (x : ℕ) (o : Option Window) → Found l o → Found (x ∷ l) o
Found-cons l x none h = tt
Found-cons l x (some w) h = ground (arith, h)

Open-cons : (l : List ℕ) (x : ℕ) (o : Option ℕ) → Open l o → Open (x ∷ l) o
Open-cons l x none h = tt
Open-cons l x (some id) h = ground (arith, h)

elem-head : (x : ℕ) (l : List ℕ) → elem (x ∷ l) x ≡ true
elem-head x l = ground arith

pub find_window-Found : (ws : List Window) (id : ℕ) → Found (ids ws) (find_window ws id)
unfolding find_window
find_window-Found [] id = tt
find_window-Found (w ∷ ws) id =
    if_ind (Found (ids (w ∷ ws))) (w.id == id) (λ _. elem-head w.id (ids ws))
      (λ _. Found-cons (ids ws) w.id (find_window ws id) (find_window-Found ws id))

-- The window found is the one at the address.
abbrev pub At : ℕ → Option Window → Type 0
At id none = Unit
At id (some w) = w.id ≡ id

pub find_window-At : (ws : List Window) (id : ℕ) → At id (find_window ws id)
unfolding find_window
find_window-At [] id = tt
find_window-At (w ∷ ws) id =
    if_ind (At id) (w.id == id) (λ e. ==→≡ w.id id e) (λ _. find_window-At ws id)

pub last_window-Open : (ws : List Window) → Open (ids ws) (last_window ws)
unfolding last_window
last_window-Open [] = tt
last_window-Open (w ∷ []) = elem-head w.id []
last_window-Open (w ∷ x ∷ ws) =
    Open-cons (ids (x ∷ ws)) w.id (last_window (x ∷ ws)) (last_window-Open (x ∷ ws))

-- A window, or the one found above it.
above :
    (w : Window) (l : List ℕ) (b : Bool) (o : Option ℕ)
    → Open l o
    → Open (w.id ∷ l) (elim o [ some id ↦ some id | none ↦ if b then none else some w.id ])
above w l b (some id) h = Open-cons l w.id (some id) h
above w l true none h = tt
above w l false none h = elem-head w.id l

pub topmost_visible-Open : (ws : List Window) → Open (ids ws) (topmost_visible ws)
unfolding topmost_visible
topmost_visible-Open [] = tt
topmost_visible-Open (w ∷ ws) =
    above w (ids ws) (is_minimized w.state) (topmost_visible ws) (topmost_visible-Open ws)

pub get_elem?-Found : (ws : List Window) (i : ℕ) → Found (ids ws) (get_elem? ws i)
get_elem?-Found [] i = tt
get_elem?-Found (w ∷ ws) zero = elem-head w.id (ids ws)
get_elem?-Found (w ∷ ws) (suc i) = Found-cons (ids ws) w.id (get_elem? ws i) (get_elem?-Found ws i)

hit_or :
    (w : Window) (l : List ℕ) (b : Bool) (o : Option Window)
    → Found l o
    → Found (w.id ∷ l) (elim o [ some v ↦ some v | none ↦ if b then some w else none ])
hit_or w l b (some v) h = Found-cons l w.id (some v) h
hit_or w l true none h = elem-head w.id l
hit_or w l false none h = tt

pub hit_window-Found : (ws : List Window) (x y : ℤ) → Found (ids ws) (hit_window ws x y)
unfolding hit_window
hit_window-Found [] x y = tt
hit_window-Found (w ∷ ws) x y =
    hit_or w (ids ws) (is_hit (wm_hit_test w x y).0) (hit_window ws x y) (hit_window-Found ws x y)
