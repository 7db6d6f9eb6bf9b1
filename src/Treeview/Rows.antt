-- ===== src/Treeview/Rows.antt =====
-- The rows of gui/treeview.c: how many the walk makes, and that it ends.
use kernel_basic.Prelude.{
  ℕ, zero, suc, ◌+◌, ◌-◌, ◌≤◌, ◌<◌, ◌≡◌, refl, Bool, true, false, not, ◌&&◌, ◌||◌, List, [], ◌∷◌,
  ◌++◌, Option, none, some, leb, if◌then◌else◌, if_ind, length, length-append, get_or, arith,
}
use kernel_basic.Prelude.Int.{ℤ, pos, ◌==ℤ◌}
use kernel_basic.Fs.Disk.{Fs, fs_root, fs_max_entries}
use kernel_basic.Fs.Table.{fs_get, fs_list}
use kernel_basic.Treeview.{
  treeview_max_rows, Row, Treeview, entry_is_folder, treeview_has_child_folder, Walk, ◌>>=◌,
  walk_ids, treeview_walk, with_rows, treeview_rebuild,
}

-- Every row shows the root or a folder in use, and whether it holds folders.
abbrev pub AllFolders : Fs → List Row → Type 0
AllFolders fs [] = Unit
AllFolders fs (r ∷ rs) =
    ((r.fs_id ==ℤ fs_root || entry_is_folder (fs_get fs r.fs_id)) ≡ true)
    × (r.has_children ≡ treeview_has_child_folder fs r.fs_id)
    × AllFolders fs rs

AllFolders-append :
    (fs : Fs) (rs : List Row) (r : Row)
    → AllFolders fs rs
    → AllFolders fs (r ∷ [])
    → AllFolders fs (rs ++ (r ∷ []))
AllFolders-append fs [] r h k = k
AllFolders-append fs (x ∷ rs) r h k = (h.0, h.1, AllFolders-append fs rs r h.2 k)

-- The walk ended, with no row taken away, no more than there is room for, and folders in all of them.
abbrev Grown : Fs → ℕ → Option (List Row) → Type 0
Grown fs n none = ⊥
Grown fs n (some rows) = (n ≤ length rows) × (length rows ≤ treeview_max_rows) × AllFolders fs rows

Grown-bind :
    (fs : Fs) (m n : ℕ) (o : Option (List Row)) (f : List Row → Option (List Row))
    → Grown fs m o
    → ((rows : List Row)
        → m ≤ length rows
        → length rows ≤ treeview_max_rows
        → AllFolders fs rows
        → Grown fs n (f rows))
    → Grown fs n (o >>= f)
Grown-bind fs m n none f h k = absurd h
Grown-bind fs m n (some rows) f h k = k rows h.0 h.1 h.2

Grown-weaken : (fs : Fs) (m n : ℕ) (o : Option (List Row)) → m ≤ n → Grown fs n o → Grown fs m o
Grown-weaken fs m n none le h = h
Grown-weaken fs m n (some rows) le h = (omega (arith, le, h.0), h.1, h.2)

-- A walk that ends where there is less room than `fuel`.
abbrev Ends : Fs → ℕ → Walk → Type 0
Ends fs fuel walk =
    (parent : ℤ) (depth : ℕ) (rows : List Row)
    → length rows ≤ treeview_max_rows
    → treeview_max_rows - length rows < fuel
    → AllFolders fs rows
    → Grown fs (length rows) (walk parent depth rows)

walk_ids-Grown :
    (fuel n : ℕ) (fs : Fs) (expanded : List Bool) (walk : Walk) (depth : ℕ) (is : List ℕ)
    (rows : List Row)
    → Ends fs fuel walk
    → n ≤ length rows
    → length rows ≤ treeview_max_rows
    → treeview_max_rows - length rows < suc fuel
    → AllFolders fs rows
    → Grown fs n (walk_ids fs expanded walk depth is rows)
unfolding walk_ids
walk_ids-Grown fuel n fs expanded walk depth [] rows ends le fits room all = (le, fits, all)
walk_ids-Grown fuel n fs expanded walk depth (i ∷ is) rows ends le fits room all =
    let children = treeview_has_child_folder fs (pos i) in
    let row : Row = record { fs_id = pos i; depth = depth; has_children = children } in
    let rows' = rows ++ (row ∷ []) in
    let more = length-append rows (row ∷ []) in
    if_ind (Grown fs n) (not (entry_is_folder (fs_get fs (pos i))))
      (λ _. walk_ids-Grown fuel n fs expanded walk depth is rows ends le fits room all)
      λ folder.
        if_ind (Grown fs n) (leb treeview_max_rows (length rows)) (λ _. (le, fits, all))
          λ e.
            let all' = AllFolders-append fs rows row all (ground (arith, folder), refl, tt) in
            let fits' : length rows' ≤ treeview_max_rows = ground (arith, e, more) in
            Grown-bind fs (length rows) n
              (if children && get_or expanded i false
                then walk (pos i) (depth + 1) rows'
                else some rows')
              _
              (if_ind (Grown fs (length rows)) (children && get_or expanded i false)
                (λ _.
                  Grown-weaken fs (length rows) (length rows') _ (omega (arith, more))
                    (ends (pos i) (depth + 1) rows' fits' (ground (arith, e, more, room)) all'))
                (λ _. (omega (arith, more), fits', all')))
              (λ rs l f a.
                walk_ids-Grown fuel n fs expanded walk depth is rs ends (omega (arith, le, l)) f
                  (omega (arith, l, room)) a)

treeview_walk-Ends :
    (fuel : ℕ) (fs : Fs) (expanded : List Bool) → Ends fs fuel (treeview_walk fuel fs expanded)
unfolding treeview_walk
treeview_walk-Ends zero fs expanded parent depth rows fits room all = absurd (omega (arith, room))
treeview_walk-Ends (suc fuel) fs expanded parent depth rows fits room all =
    walk_ids-Grown fuel (length rows) fs expanded (treeview_walk fuel fs expanded) depth
      (fs_list fs parent fs_max_entries) rows (treeview_walk-Ends fuel fs expanded) (omega arith)
      fits room all

-- A view whose rows, at least the root's, are folders and fit the array.
abbrev pub IsView : Fs → Option Treeview → Type 0
IsView fs none = ⊥
IsView fs (some tv) =
    (1 ≤ length tv.rows) × (length tv.rows ≤ treeview_max_rows) × AllFolders fs tv.rows

-- Whatever the file table holds, parents that form a cycle included, rebuilding the tree ends: the
-- view has at least 1 row and at most 128, and each shows the root or a folder in use, marked as
-- one that holds folders exactly where treeview_has_child_folder finds one.
pub treeview_rebuild-IsView : (fs : Fs) (tv : Treeview) → IsView fs (treeview_rebuild fs tv)
unfolding treeview_rebuild
treeview_rebuild-IsView fs tv =
    let root : Row = record {
      fs_id = fs_root;
      depth = 0;
      has_children = treeview_has_child_folder fs fs_root;
    } in
    viewed (treeview_walk treeview_max_rows fs tv.expanded fs_root 1 (root ∷ [])) (
      treeview_walk-Ends treeview_max_rows fs tv.expanded fs_root 1 (root ∷ []) (omega arith)
        (omega arith) (refl, refl, tt))
  where
    viewed : (o : Option (List Row)) → Grown fs 1 o → IsView fs (with_rows tv o)
    viewed none h = absurd h
    viewed (some rows) h = h
