-- ===== src/Treeview.antt =====
-- gui/treeview.c: the tree of folders. Its rows are a walk of the file system; drawing is left out.
pub mod Rows
use kernel_basic.Prelude.{
  ℕ, zero, suc, ◌+◌, ◌*◌, Bool, true, false, not, ◌&&◌, ◌||◌, List, [], ◌∷◌, ◌++◌, Option, none,
  some, leb, ◌==◌, if◌then◌else◌, length, get_or, get_elem?, set, replicate,
}
use kernel_basic.Prelude.Int.{ℤ, pos, ◌+ℤ◌, ◌-ℤ◌, ◌/ℤ◌, ltb_ℤ, leb_ℤ, pos_part}
use kernel_basic.Rect.{Rect, rect_contains_point}
use kernel_basic.Listbox.{font_h}
use kernel_basic.Fs.Disk.{Fs, Dirent, fs_type_folder, fs_root, fs_max_entries}
use kernel_basic.Fs.Table.{fs_get, fs_list}

abbrev pub treeview_max_rows : ℕ
treeview_max_rows = 128

abbrev pub treeview_indent : ℕ
treeview_indent = 12

abbrev pub treeview_toggle_w : ℕ
treeview_toggle_w = 10

-- `treeview_row_t`
pub record Row : Type 0 where
  pub fs_id : ℤ
  pub depth : ℕ
  pub has_children : Bool

-- `treeview_st`: `rows` is the used part of the array.
pub record Treeview : Type 0 where
  pub rect : Rect
  pub rows : List Row
  pub top : ℤ
  pub expanded : List Bool
  pub selected_id : ℤ

-- `rows` keeps what it had: only `row_count` is set.
unfoldable pub treeview_init : Rect → Treeview
treeview_init rect = record {
  rect = rect;
  rows = [];
  top = pos 0;
  selected_id = fs_root;
  expanded = replicate treeview_max_rows false;
}

-- e && e->type == FS_TYPE_FOLDER
abbrev pub entry_is_folder : Option Dirent → Bool
entry_is_folder none = false
entry_is_folder (some e) = e.kind == fs_type_folder

unfoldable pub any_folder : Fs → List ℕ → Bool
any_folder fs [] = false
any_folder fs (i ∷ is) = if entry_is_folder (fs_get fs (pos i)) then true else any_folder fs is

unfoldable pub treeview_has_child_folder : Fs → (id : ℤ) → Bool
unfolding any_folder
treeview_has_child_folder fs id = any_folder fs (fs_list fs id fs_max_entries)

-- The walk of a folder, from its id and depth, behind the rows so far. None where the fuel ran out.
abbrev pub Walk : Type 0
Walk = ℤ → (depth : ℕ) → List Row → Option (List Row)

infixl 5 ◌>>=◌
abbrev pub ◌>>=◌ : {A B : Type 0} → Option A → (A → Option B) → Option B
none >>= f = none
some a >>= f = f a

-- The loop over a folder's entries, with the walk of an expanded folder.
unfoldable pub walk_ids :
    Fs → (expanded : List Bool) → Walk → (depth : ℕ) → List ℕ → List Row → Option (List Row)
walk_ids fs expanded walk depth [] rows = some rows
walk_ids fs expanded walk depth (i ∷ is) rows =
    let children = treeview_has_child_folder fs (pos i) in
    let rows' = rows ++ (record { fs_id = pos i; depth = depth; has_children = children } ∷ []) in
    let others = λ (rows : List Row). walk_ids fs expanded walk depth is rows in
    if not (entry_is_folder (fs_get fs (pos i)))
    then others rows
    else if leb treeview_max_rows (length rows)
    then some rows
    else ((if children && get_or expanded i false
          then walk (pos i) (depth + 1) rows'
          else some rows')
        >>= others)

unfoldable pub treeview_walk : (fuel : ℕ) → Fs → (expanded : List Bool) → Walk
unfolding walk_ids
treeview_walk zero fs expanded parent depth rows = none
treeview_walk (suc fuel) fs expanded parent depth rows =
    walk_ids fs expanded (treeview_walk fuel fs expanded) depth (fs_list fs parent fs_max_entries)
      rows

-- Where the walk gives rows, they are the view's.
abbrev pub with_rows : Treeview → Option (List Row) → Option Treeview
with_rows tv none = none
with_rows tv (some rows) = some (record tv { rows = rows })

-- As much fuel as there are rows.
unfoldable pub treeview_rebuild : Fs → Treeview → Option Treeview
unfolding treeview_walk
treeview_rebuild fs tv =
    let root : Row = record {
      fs_id = fs_root;
      depth = 0;
      has_children = treeview_has_child_folder fs fs_root;
    } in
    with_rows tv (treeview_walk treeview_max_rows fs tv.expanded fs_root 1 (root ∷ []))

unfoldable pub treeview_hit_row : Treeview → (x y : ℤ) → Option ℕ
treeview_hit_row tv x y =
    let idx = tv.top +ℤ (y -ℤ tv.rect.y) /ℤ pos font_h in
    if not (rect_contains_point tv.rect x y)
    then none
    else if ltb_ℤ idx (pos 0) || leb_ℤ (pos (length tv.rows)) idx
    then none
    else some (pos_part idx)

-- The row that a caller gives, if there is one.
unfoldable pub row_at : Treeview → (row : ℤ) → Option Row
row_at tv row = if ltb_ℤ row (pos 0) then none else get_elem? tv.rows (pos_part row)

unfoldable pub hit_toggle_of : Treeview → (x : ℤ) → Option Row → Bool
hit_toggle_of tv x none = false
hit_toggle_of tv x (some r) =
    let tx = tv.rect.x +ℤ pos (r.depth * treeview_indent) in
    r.has_children && (leb_ℤ tx x && ltb_ℤ x (tx +ℤ pos treeview_toggle_w))

unfoldable pub treeview_hit_toggle : Treeview → (row x y : ℤ) → Bool
unfolding hit_toggle_of row_at
treeview_hit_toggle tv row x y = hit_toggle_of tv x (row_at tv row)

unfoldable pub toggle_row : Fs → Treeview → Option Row → Option Treeview
unfolding treeview_rebuild
toggle_row fs tv none = some tv
toggle_row fs tv (some r) =
    let id = pos_part r.fs_id in
    if ltb_ℤ r.fs_id (pos 0)
    then some tv
    else treeview_rebuild fs
        (record tv { expanded = set tv.expanded id (not (get_or tv.expanded id false)) })

unfoldable pub treeview_toggle_expand : Fs → Treeview → (row : ℤ) → Option Treeview
unfolding toggle_row row_at
treeview_toggle_expand fs tv row = toggle_row fs tv (row_at tv row)
