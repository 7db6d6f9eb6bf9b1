-- ===== src/Editbuf/Typing.antt =====
-- `editbuf_key` against a plain text with a cursor.
use kernel_basic.Prelude.{
  ℕ, ◌+◌, ◌-◌, ◌≤◌, ◌<◌, ◌≡◌, refl, ap, sym, ◌∙◌, ◌≢◌, List, Bool, ltb, leb, ◌==◌, ◌&&◌,
  if◌then◌else◌, arith, length, Bool-cases, inl, inr, ltb→lt, if_ind, length-set,
}
use kernel_basic.Prelude.Int.{ℤ}
use kernel_basic.Prelude.Memory.{shift_up, length-shift_up, length-copy_down}
use kernel_basic.Prelude.Splice.{insert_at, remove_at}
use kernel_basic.Keys.{key_left, key_right, key_up, key_down, key_delete, key_home, key_end}
use kernel_basic.Editbuf.{
  Editbuf, eb_insert, eb_erase, eb_up, eb_down, edit_key, touched, editbuf_key, line_start,
  line_end, no_goal,
}
use kernel_basic.Editbuf.Text.{IsValid, text, length-text, text-insert, text-erase}
use kernel_basic.Editbuf.Lines.{line_start-StartsLine, line_end-EndsLine}

eb_insert-IsValid : (eb : Editbuf) (c : ℕ) → IsValid eb → IsValid (eb_insert eb c)
unfolding eb_insert
eb_insert-IsValid eb c v =
    let up = shift_up eb.bytes eb.cursor (eb.len - eb.cursor) in
    ground
      (arith, length-set up eb.cursor c, length-shift_up eb.bytes eb.cursor (eb.len - eb.cursor))

eb_erase-IsValid :
    (eb : Editbuf) (at : ℕ)
    → length eb.bytes ≡ eb.cap
    → eb.len ≤ eb.cap
    → at < eb.len
    → eb.cursor < eb.len
    → IsValid (eb_erase eb at)
unfolding eb_erase
eb_erase-IsValid eb at s l h k =
    ground (arith, length-copy_down eb.bytes at (at + 1) (eb.len - 1 - at))

eb_up-IsValid : (eb : Editbuf) → IsValid eb → IsValid (eb_up eb)
unfolding eb_up
eb_up-IsValid eb v =
    let here = line_start-StartsLine eb.bytes eb.cursor in
    let prev = line_start-StartsLine eb.bytes (line_start eb.bytes eb.cursor - 1) in
    ground (arith, here.before, prev.before)

eb_down-IsValid : (eb : Editbuf) → IsValid eb → IsValid (eb_down eb)
unfolding eb_down
eb_down-IsValid eb v = elim (Bool-cases (leb eb.len (line_end eb eb.cursor))) [
  | inl last ↦ rw last (record { storage = v.storage; len_in = v.len_in; cursor_in = v.cursor_in })
  | inr more ↦
      let next = line_end-EndsLine eb (line_end eb eb.cursor + 1) (ground arith) in
      rw more (record {
        storage = v.storage;
        len_in = v.len_in;
        cursor_in = ground (arith, next.behind, next.inside);
      })
]

touched-IsValid : (eb : Editbuf) → IsValid eb → IsValid (touched eb).0
touched-IsValid eb v = record { storage = v.storage; len_in = v.len_in; cursor_in = v.cursor_in }

-- A move within the document.
move-IsValid :
    (eb : Editbuf) (cursor : ℕ) (goal : ℤ)
    → IsValid eb
    → cursor ≤ eb.len
    → IsValid (record eb { cursor = cursor; goal_col = goal })
move-IsValid eb cursor goal v h = record { storage = v.storage; len_in = v.len_in; cursor_in = h }

abbrev ResultIsValid : Editbuf × Bool → Type 0
ResultIsValid r = IsValid r.0

edit_key-IsValid : (eb : Editbuf) (k : ℕ) → IsValid eb → IsValid (edit_key eb k).0
unfolding edit_key
edit_key-IsValid eb k v =
    if_ind ResultIsValid (k == key_delete)
      (λ _.
        if_ind ResultIsValid (ltb eb.cursor eb.len)
          (λ h.
            touched-IsValid _
              (eb_erase-IsValid eb eb.cursor v.storage v.len_in (ltb→lt _ _ h) (ltb→lt _ _ h)))
          (λ _. move-IsValid eb eb.cursor no_goal v v.cursor_in))
      λ _.
        if_ind ResultIsValid (k == 8)
          (λ _.
            if_ind ResultIsValid (ltb 0 eb.cursor)
              (λ h. touched-IsValid _ (
                eb_erase-IsValid (record eb { cursor = eb.cursor - 1 }) (eb.cursor - 1) v.storage
                  v.len_in (ground arith) (ground arith)))
              (λ _. move-IsValid eb eb.cursor no_goal v v.cursor_in))
          λ _.
            if_ind ResultIsValid (k == 10) (λ _. touched-IsValid _ (eb_insert-IsValid eb 10 v))
              λ _.
                if_ind ResultIsValid (k == 9)
                  (λ _. touched-IsValid _ (
                    eb_insert-IsValid _ b' ' (
                      eb_insert-IsValid _ b' '
                        (eb_insert-IsValid _ b' ' (eb_insert-IsValid eb b' ' v)))))
                  λ _.
                    if_ind ResultIsValid (leb 32 k && ltb k 127)
                      (λ _. touched-IsValid _ (eb_insert-IsValid eb k v)) (λ _. v)

-- Every key leaves a well-formed buffer well formed: the document fits its block, and the cursor
-- the document.
pub editbuf_key-IsValid : {eb : Editbuf} (k : ℕ) → IsValid eb → IsValid (editbuf_key eb k).0
unfolding editbuf_key
editbuf_key-IsValid {eb} k v =
    let start = line_start-StartsLine eb.bytes eb.cursor in
    let end = line_end-EndsLine eb eb.cursor v.cursor_in in
    if_ind ResultIsValid (k == key_left) (λ _. move-IsValid eb _ no_goal v (ground arith))
      λ _.
        if_ind ResultIsValid (k == key_right) (λ _. move-IsValid eb _ no_goal v (ground arith))
          λ _.
            if_ind ResultIsValid (k == key_up) (λ _. eb_up-IsValid eb v)
              λ _.
                if_ind ResultIsValid (k == key_down) (λ _. eb_down-IsValid eb v)
                  λ _.
                    if_ind ResultIsValid (k == key_home)
                      (λ _. move-IsValid eb _ no_goal v (omega (arith, start.before, v.cursor_in)))
                      λ _.
                        if_ind ResultIsValid (k == key_end)
                          (λ _. move-IsValid eb _ no_goal v end.inside)
                          (λ _. edit_key-IsValid eb k v)

-- What a typed byte makes of a text of at most `cap` bytes and the cursor.
unfoldable pub type_byte : (cap c : ℕ) → List ℕ × ℕ → List ℕ × ℕ
type_byte cap c (t, cursor) =
    if ltb (length t) cap then (insert_at cursor c t, cursor + 1) else (t, cursor)

-- What a key makes of a text and a cursor offset; the keys that only move leave the text alone.
unfoldable pub edit : (cap k : ℕ) → List ℕ → (cursor : ℕ) → List ℕ
edit cap k t cursor =
    if k == key_delete
    then (if ltb cursor (length t) then remove_at cursor t else t)
    else if k == 8
    then (if ltb 0 cursor then remove_at (cursor - 1) t else t)
    else if k == 10
    then (type_byte cap 10 (t, cursor)).0
    else if k == 9
    then (type_byte cap b' '
        (type_byte cap b' ' (type_byte cap b' ' (type_byte cap b' ' (t, cursor))))).0
    else if leb 32 k && ltb k 127
    then (type_byte cap k (t, cursor)).0
    else t

-- The text of a buffer with the cursor.
abbrev view : Editbuf → List ℕ × ℕ
view eb = (text eb, eb.cursor)

text_same :
    (eb : Editbuf) (cursor : ℕ) (goal : ℤ) (d : Bool)
    → text (record eb { cursor = cursor; goal_col = goal; dirty = d }) ≡ text eb
unfolding text
text_same eb cursor goal d = refl

text_done : (eb : Editbuf) → text (touched eb).0 ≡ text eb
unfolding text
text_done eb = refl

text-up : (eb : Editbuf) → text (eb_up eb) ≡ text eb
unfolding text eb_up
text-up eb = ground arith

text-down : (eb : Editbuf) → text (eb_down eb) ≡ text eb
unfolding text eb_down
text-down eb = ground arith

insert-full : (eb : Editbuf) (c : ℕ) → eb.cap ≤ eb.len → eb_insert eb c ≡ eb
unfolding eb_insert
insert-full eb c h = ground arith

insert-cursor : (eb : Editbuf) (c : ℕ) → eb.len < eb.cap → (eb_insert eb c).cursor ≡ eb.cursor + 1
unfolding eb_insert
insert-cursor eb c h = ground arith

cap-insert : (eb : Editbuf) (c : ℕ) → (eb_insert eb c).cap ≡ eb.cap
unfolding eb_insert
cap-insert eb c = ground arith

view-insert :
    (eb : Editbuf) (c : ℕ) → IsValid eb → view (eb_insert eb c) ≡ type_byte eb.cap c (view eb)
unfolding type_byte
view-insert eb c v = elim (Bool-cases (ltb eb.len eb.cap)) [
  | inl room ↦
      let h = ltb→lt _ _ room in
      rw (length-text eb v, room, text-insert eb c v h, insert-cursor eb c h)
  | inr full ↦ rw (length-text eb v, full, insert-full eb c (ground arith))
]

-- The same with the capacity under another name, as after a first insertion.
view-insert_cap :
    (cap : ℕ) (eb : Editbuf) (c : ℕ)
    → IsValid eb
    → eb.cap ≡ cap
    → view (eb_insert eb c) ≡ type_byte cap c (view eb)
view-insert_cap cap eb c v e = view-insert eb c v ∙ ap (λ n. type_byte n c (view eb)) e

view-insert_four :
    (eb : Editbuf) (c : ℕ)
    → IsValid eb
    → view (eb_insert (eb_insert (eb_insert (eb_insert eb c) c) c) c)
      ≡ type_byte eb.cap c (type_byte eb.cap c (type_byte eb.cap c (type_byte eb.cap c (view eb))))
view-insert_four eb c v =
    let e1 = eb_insert eb c in
    let e2 = eb_insert e1 c in
    let e3 = eb_insert e2 c in
    let v1 = eb_insert-IsValid eb c v in
    let v2 = eb_insert-IsValid e1 c v1 in
    let v3 = eb_insert-IsValid e2 c v2 in
    let c1 = cap-insert eb c in
    let c2 = cap-insert e1 c ∙ c1 in
    let c3 = cap-insert e2 c ∙ c2 in
    let type = type_byte eb.cap c in
    view-insert_cap eb.cap e3 c v3 c3
    ∙ ap type (
        view-insert_cap eb.cap e2 c v2 c2
        ∙ ap type (view-insert_cap eb.cap e1 c v1 c1 ∙ ap type (view-insert eb c v)))

text-edit_key :
    (eb : Editbuf) (k : ℕ) → IsValid eb → text (edit_key eb k).0 ≡ edit eb.cap k (text eb) eb.cursor
unfolding edit_key edit
text-edit_key eb k v =
    let P = λ (r : Editbuf × Bool). text r.0 ≡ edit eb.cap k (text eb) eb.cursor in
    if_ind P (k == key_delete)
      (λ h.
        if_ind P (ltb eb.cursor eb.len)
          (λ l.
            rw (h, length-text eb v, l) (text_done _ ∙ text-erase eb eb.cursor v (ltb→lt _ _ l)))
          (λ l. rw (h, length-text eb v, l) (text_same eb eb.cursor no_goal eb.dirty)))
      λ h₁.
        if_ind P (k == 8)
          (λ h.
            if_ind P (ltb 0 eb.cursor)
              (λ l.
                rw (h₁, h, l)
                  (text_done _
                    ∙ text-erase (record eb { cursor = eb.cursor - 1 }) (eb.cursor - 1)
                        (move-IsValid eb (eb.cursor - 1) eb.goal_col v (ground arith))
                        (ground arith)
                    ∙ ap (remove_at (eb.cursor - 1))
                        (text_same eb (eb.cursor - 1) eb.goal_col eb.dirty)))
              (λ l. rw (h₁, h, l) (text_same eb eb.cursor no_goal eb.dirty)))
          λ h₂.
            if_ind P (k == 10)
              (λ h. rw (h₁, h₂, h) (text_done _ ∙ ap (λ w. w.0) (view-insert eb 10 v)))
              λ h₃.
                if_ind P (k == 9)
                  (λ h.
                    rw (h₁, h₂, h₃, h) (text_done _ ∙ ap (λ w. w.0) (view-insert_four eb b' ' v)))
                  λ h₄.
                    if_ind P (leb 32 k && ltb k 127)
                      (λ h.
                        rw (h₁, h₂, h₃, h₄, h) (text_done _ ∙ ap (λ w. w.0) (view-insert eb k v)))
                      (λ h. rw (h₁, h₂, h₃, h₄, h))

edit-move :
    (cap k : ℕ) (t : List ℕ) (cursor : ℕ) → 127 ≤ k → k ≢ key_delete → edit cap k t cursor ≡ t
unfolding edit
edit-move cap k t cursor h n = ground arith

-- On a well-formed buffer every key does to the document what `edit` does to its text: the cursor
-- keys leave it alone, Delete and Backspace remove the byte behind and before the cursor if there
-- is one, and a printable character, a line break and the four spaces of a Tab go in at the cursor
-- as far as they fit.
pub text-editbuf_key :
    (eb : Editbuf) (k : ℕ)
    → IsValid eb
    → text (editbuf_key eb k).0 ≡ edit eb.cap k (text eb) eb.cursor
unfolding editbuf_key
text-editbuf_key eb k v =
    let P = λ (r : Editbuf × Bool). text r.0 ≡ edit eb.cap k (text eb) eb.cursor in
    let still =
      λ (h : 127 ≤ k) (n : k ≢ key_delete). sym (edit-move eb.cap k (text eb) eb.cursor h n) in
    if_ind P (k == key_left)
      (λ h. text_same eb _ no_goal eb.dirty ∙ still (ground arith) (ground arith))
      λ _.
        if_ind P (k == key_right)
          (λ h. text_same eb _ no_goal eb.dirty ∙ still (ground arith) (ground arith))
          λ _.
            if_ind P (k == key_up) (λ h. text-up eb ∙ still (ground arith) (ground arith))
              λ _.
                if_ind P (k == key_down) (λ h. text-down eb ∙ still (ground arith) (ground arith))
                  λ _.
                    if_ind P (k == key_home)
                      (λ h. text_same eb _ no_goal eb.dirty ∙ still (ground arith) (ground arith))
                      λ _.
                        if_ind P (k == key_end)
                          (λ h.
                            text_same eb _ no_goal eb.dirty ∙ still (ground arith) (ground arith))
                          (λ _. text-edit_key eb k v)
