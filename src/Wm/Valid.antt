-- ===== src/Wm/Valid.antt =====
-- The pointers of gui/wm.c: which windows are open, and where the pointers lead.
use kernel_basic.Prelude.{
  ℕ, ◌≤◌, ◌<◌, ◌≡◌, refl, ◌∙◌, Bool, true, false, List, [], ◌∷◌, ◌++◌, Option, none, some, ◌==◌,
  if◌then◌else◌, if_ind, length, length-append, arith,
}
use kernel_basic.Wm.{max_windows, Mode, idle, dragging_title, resizing, app_captured, Wm, is_win}
use kernel_basic.Wm.Windows.{forget}
use kernel_basic.Wm.Ids.{
  ids, elem, erase, Distinct, Open, elem-append, elem-erase, elem-erase_self, elem-raise,
  Distinct-erase, Distinct-append, length-erase_member,
}

-- A window is dragged in every mode but the idle one.
abbrev pub Matches : Mode → Option ℕ → Type 0
Matches idle none = Unit
Matches idle (some id) = ⊥
Matches _ none = ⊥
Matches _ (some id) = Unit

-- The window that is dragged is open, save where its application captured the mouse: that one may
-- close its window meanwhile.
abbrev pub DragOpen : Mode → List ℕ → Option ℕ → Type 0
DragOpen app_captured l o = Unit
DragOpen _ l o = Open l o

DragOpen-map :
    (l l' : List ℕ) (d d' : Option ℕ) (m : Mode)
    → (Open l d → Open l' d')
    → DragOpen m l d
    → DragOpen m l' d'
DragOpen-map l l' d d' idle f h = f h
DragOpen-map l l' d d' dragging_title f h = f h
DragOpen-map l l' d d' resizing f h = f h
DragOpen-map l l' d d' app_captured f h = tt

-- The addresses of the open windows are distinct and few, and the pointers are null or lead to them.
pub record Valid (l : List ℕ) (focused drag_win last_sysmenu_win : Option ℕ) (mode : Mode)
    : Type 0 where
  pub distinct : Distinct l
  pub few : length l ≤ max_windows
  pub focused_open : Open l focused
  pub drag_open : DragOpen mode l drag_win
  pub sysmenu_open : Open l last_sysmenu_win
  pub matches : Matches mode drag_win

abbrev pub IsValid : Wm → Type 0
IsValid s = Valid (ids s.windows) s.focused s.drag_win s.last_sysmenu_win s.mode

-- Pointers in a list that has the same addresses.
Open-same :
    (l m : List ℕ) (o : Option ℕ)
    → ((id : ℕ) → elem l id ≡ true → elem m id ≡ true)
    → Open l o
    → Open m o
Open-same l m none k h = tt
Open-same l m (some id) k h = k id h

-- A pointer that does not lead to the window which is erased.
pub Open-forget : (l : List ℕ) (a : ℕ) (o : Option ℕ) → Open l o → Open (erase l a) (forget o a)
Open-forget l a none h = tt
Open-forget l a (some id) h =
    if_ind (Open (erase l a)) (id == a) (λ _. tt) (λ e. elem-erase l a id (ground (arith, e)) ∙ h)

module _ {l : List ℕ} {f d y : Option ℕ} {m : Mode} where
  pub raise-Valid :
      (a : ℕ) → elem l a ≡ true → Valid l f d y m → Valid (erase l a ++ (a ∷ [])) (some a) d y m
  raise-Valid a h v =
      let kept = λ (id : ℕ) (o : elem l id ≡ true). elem-raise l a id h ∙ o in
      record {
        distinct =
            Distinct-append (erase l a) a (Distinct-erase l a v.distinct)
              (elem-erase_self l a v.distinct);
        few = omega (arith, v.few, length-append (erase l a) (a ∷ []), length-erase_member l a h);
        focused_open = elem-raise l a a h ∙ h;
        drag_open = DragOpen-map _ _ _ _ m (Open-same l _ d kept) v.drag_open;
        sysmenu_open = Open-same l _ y kept v.sysmenu_open;
        matches = v.matches;
      }

  pub create-Valid :
      (a : ℕ)
      → elem l a ≡ false
      → length l < max_windows
      → Valid l f d y m
      → Valid (l ++ (a ∷ [])) (some a) d y m
  create-Valid a fresh room v =
      let kept = λ (id : ℕ) (o : elem l id ≡ true). elem-append l (a ∷ []) id ∙ ground (arith, o) in
      record {
        distinct = Distinct-append l a v.distinct fresh;
        few = omega (arith, room, length-append l (a ∷ []));
        focused_open = elem-append l (a ∷ []) a ∙ ground (arith, fresh);
        drag_open = DragOpen-map _ _ _ _ m (Open-same l _ d kept) v.drag_open;
        sysmenu_open = Open-same l _ y kept v.sysmenu_open;
        matches = v.matches;
      }

  pub focus-Valid : (g : Option ℕ) → Open l g → Valid l f d y m → Valid l g d y m
  focus-Valid g h v = record {
    distinct = v.distinct;
    few = v.few;
    focused_open = h;
    drag_open = v.drag_open;
    sysmenu_open = v.sysmenu_open;
    matches = v.matches;
  }

  pub sysmenu-Valid : (g : Option ℕ) → Open l g → Valid l f d y m → Valid l f d g m
  sysmenu-Valid g h v = record {
    distinct = v.distinct;
    few = v.few;
    focused_open = v.focused_open;
    drag_open = v.drag_open;
    sysmenu_open = h;
    matches = v.matches;
  }

  pub drag-Valid :
      (g : Option ℕ) (n : Mode) → DragOpen n l g → Matches n g → Valid l f d y m → Valid l f g y n
  drag-Valid g n h k v = record {
    distinct = v.distinct;
    few = v.few;
    focused_open = v.focused_open;
    drag_open = h;
    sysmenu_open = v.sysmenu_open;
    matches = k;
  }

-- The mode after a window was closed.
pub Matches-forget :
    (d : Option ℕ) (m : Mode) (a : ℕ)
    → Matches m d
    → Matches (if is_win d a then idle else m) (forget d a)
Matches-forget none m a h = h
Matches-forget (some id) m a h = dropped (id == a)
  where
    dropped : (b : Bool) → Matches (if b then idle else m) (if b then none else some id)
    dropped true = tt
    dropped false = h

pub DragOpen-forget :
    (l : List ℕ) (d : Option ℕ) (m : Mode) (a : ℕ)
    → DragOpen m l d
    → DragOpen (if is_win d a then idle else m) (erase l a) (forget d a)
DragOpen-forget l none m a h = DragOpen-map _ _ _ _ m (λ _. tt) h
DragOpen-forget l (some id) m a h = dropped (id == a) refl
  where
    dropped :
        (b : Bool)
        → (id == a) ≡ b
        → DragOpen (if b then idle else m) (erase l a) (if b then none else some id)
    dropped true e = tt
    dropped false e = DragOpen-map _ _ _ _ m (λ o. elem-erase l a id (ground (arith, e)) ∙ o) h
