-- ===== src/Editbuf/Lines.antt =====
-- The lines of the document: where they begin and end, and the vertical moves between them.
use kernel_basic.Prelude.{
  ℕ, zero, suc, ◌+◌, ◌-◌, ◌≤◌, ◌<◌, ◌≡◌, ◌≢◌, ◌⊎◌, inl, inr, refl, ◌∙◌, List, ltb, ◌==◌,
  if◌then◌else◌, arith, get_or, if_ind,
}
use kernel_basic.Prelude.Int.{ℤ, pos}
use kernel_basic.Prelude.Memory.{index_eq}
use kernel_basic.Editbuf.{
  Editbuf, line_start, line_end, line_end_loop, aim, eb_up, eb_down, no_goal,
}
use kernel_basic.Editbuf.Text.{IsValid}

-- `s` is where the line that holds offset `off` begins.
pub record StartsLine (d : List ℕ) (off s : ℕ) : Type 0 where
  pub before : s ≤ off
  pub behind_break : (s ≡ 0) ⊎ (get_or d (s - 1) 0 ≡ 10)
  pub one_line : (k : ℕ) → s ≤ k → k < off → get_or d k 0 ≢ 10

-- `e` is where the line that holds offset `off` ends: at a line break, or at the document's end.
pub record EndsLine (d : List ℕ) (len off e : ℕ) : Type 0 where
  pub behind : off ≤ e
  pub inside : e ≤ len
  pub at_break : (e ≡ len) ⊎ (get_or d e 0 ≡ 10)
  pub one_line : (k : ℕ) → off ≤ k → k < e → get_or d k 0 ≢ 10

-- line_start returns an offset at or before the given one that is the document's beginning or
-- stands behind a line break, with no line break between the two.
pub line_start-StartsLine : (d : List ℕ) (off : ℕ) → StartsLine d off (line_start d off)
unfolding line_start
line_start-StartsLine d zero = record {
  before = omega arith;
  behind_break = inl refl;
  one_line = λ k h l. absurd (omega arith);
}
line_start-StartsLine d (suc i) =
    let ih = line_start-StartsLine d i in
    if_ind (StartsLine d (suc i)) (get_or d i 0 == 10)
      (λ e. record {
        before = omega arith;
        behind_break = inr (ground arith);
        one_line = λ k h l. absurd (omega arith);
      })
      (λ e. record {
        before = omega (arith, ih.before);
        behind_break = ih.behind_break;
        one_line = λ k h l q. ground (arith, ih.one_line k h, index_eq d {i = k} {j = i});
      })

line_end_loop-EndsLine :
    (d : List ℕ) (len n i : ℕ) → i + n ≡ len → EndsLine d len i (line_end_loop d n i)
unfolding line_end_loop
line_end_loop-EndsLine d len zero i h = record {
  behind = omega arith;
  inside = omega arith;
  at_break = inl (omega arith);
  one_line = λ k a b. absurd (omega arith);
}
line_end_loop-EndsLine d len (suc n) i h =
    let ih = line_end_loop-EndsLine d len n (i + 1) (omega arith) in
    if_ind (EndsLine d len i) (get_or d i 0 == 10)
      (λ e. record {
        behind = omega arith;
        inside = omega arith;
        at_break = inr (ground arith);
        one_line = λ k a b. absurd (omega arith);
      })
      (λ e. record {
        behind = omega (arith, ih.behind);
        inside = ih.inside;
        at_break = ih.at_break;
        one_line = λ k a b q. ground (arith, ih.one_line k, index_eq d {i = k} {j = i});
      })

-- For an offset within the document, line_end returns one at or behind it that is the document's
-- end or a line break, with no line break between the two.
pub line_end-EndsLine :
    (eb : Editbuf) (off : ℕ) → off ≤ eb.len → EndsLine eb.bytes eb.len off (line_end eb off)
unfolding line_end
line_end-EndsLine eb off h = line_end_loop-EndsLine eb.bytes eb.len (eb.len - off) off (omega arith)

pub StartsLine-unique : (d : List ℕ) (off s t : ℕ) → StartsLine d off s → StartsLine d off t → s ≡ t
StartsLine-unique d off s t a b = ground (arith, a.one_line (t - 1), b.one_line (s - 1))

EndsLine-unique :
    (d : List ℕ) (len off s t : ℕ) → EndsLine d len off s → EndsLine d len off t → s ≡ t
EndsLine-unique d len off s t a b = ground (arith, a.one_line t, b.one_line s)

aim_fresh :
    (eb : Editbuf) → eb.goal_col ≡ no_goal → aim eb ≡ eb.cursor - line_start eb.bytes eb.cursor
unfolding aim
aim_fresh eb g = rw g

aim-pos :
    (eb : Editbuf) (goal cursor : ℕ)
    → aim (record eb { goal_col = pos goal; cursor = cursor }) ≡ goal
unfolding aim
aim-pos eb goal cursor = ground arith

line_end_same :
    (eb : Editbuf) (off : ℕ) (goal : ℤ) (cursor : ℕ)
    → line_end (record eb { goal_col = goal; cursor = cursor }) off ≡ line_end eb off
unfolding line_end
line_end_same eb off goal cursor = refl

-- The line before: the beginning of the cursor's line, of the line above, and that line's length.
module _ (eb : Editbuf) where
  abbrev start : ℕ
  start = line_start eb.bytes eb.cursor

  abbrev above : ℕ
  above = line_start eb.bytes (start - 1)

  abbrev column_above : ℕ
  column_above = if ltb (aim eb) (start - 1 - above) then aim eb else start - 1 - above

  up_cursor : start ≢ 0 → (eb_up eb).cursor ≡ above + column_above
  unfolding eb_up
  up_cursor h = ground arith

  -- From the second line on, `eb_up` goes to the line above, to the wanted column or to the line's
  -- end if that comes first.
  pub eb_up_lem :
      start ≢ 0
      → StartsLine eb.bytes (eb_up eb).cursor above
        × (above < start)
        × ((eb_up eb).cursor ≡ above + column_above)
  eb_up_lem h =
      let here = line_start-StartsLine eb.bytes eb.cursor in
      let prev = line_start-StartsLine eb.bytes (start - 1) in
      let at : (eb_up eb).cursor ≡ above + column_above = up_cursor h in
      let within : column_above ≤ start - 1 - above = ground arith in
      (
        record {
          before = omega arith;
          behind_break = prev.behind_break;
          one_line = λ k a b. prev.one_line k a (omega (arith, prev.before));
        },
        omega (arith, prev.before),
        at,
      )

  -- The line above ends at the break before the cursor's line.
  above-EndsLine :
      IsValid eb → start ≢ 0 → EndsLine eb.bytes eb.len (above + column_above) (start - 1)
  above-EndsLine v h =
      let here = line_start-StartsLine eb.bytes eb.cursor in
      let prev = line_start-StartsLine eb.bytes (start - 1) in
      let within : column_above ≤ start - 1 - above = ground arith in
      record {
        behind = omega (arith, prev.before);
        inside = omega (arith, here.before, v.cursor_in);
        at_break = elim here.behind_break [ inl z ↦ absurd (h z) | inr q ↦ inr q ];
        one_line = λ k a b. prev.one_line k (omega arith) b;
      }

  -- The cursor's line goes on at least to the cursor.
  cursor-le-end : IsValid eb → eb.cursor ≤ line_end eb start
  cursor-le-end v =
      let here = line_start-StartsLine eb.bytes eb.cursor in
      let e = line_end-EndsLine eb start (omega (arith, here.before, v.cursor_in)) in
      ground (arith, here.one_line (line_end eb start))

  -- `eb_up` as one record.
  abbrev went_up : Editbuf
  went_up = record eb { goal_col = pos (aim eb); cursor = above + column_above }

  up_eq : start ≢ 0 → eb_up eb ≡ went_up
  unfolding eb_up
  up_eq h = ground arith

  aim-went_up : aim went_up ≡ aim eb
  aim-went_up = aim-pos eb (aim eb) (above + column_above)

  down_cursor :
      line_end went_up (above + column_above) ≡ start - 1
      → start ≢ 0
      → start ≤ eb.len
      → aim eb ≤ line_end eb start - start
      → (eb_down went_up).cursor ≡ start + aim eb
  unfolding eb_down
  down_cursor e h l a =
      let next : start - 1 + 1 ≡ start = omega arith in
      rw (e, next, aim-went_up, line_end_same eb start (pos (aim eb)) (above + column_above))
        (ground arith)

-- On a well-formed buffer with no column remembered and the cursor behind the first line, a step
-- up and a step down come back to the same place.
pub eb_down-eb_up :
    (eb : Editbuf)
    → IsValid eb
    → eb.goal_col ≡ no_goal
    → line_start eb.bytes eb.cursor ≢ 0
    → (eb_down (eb_up eb)).cursor ≡ eb.cursor
eb_down-eb_up eb v g h =
    let here = line_start-StartsLine eb.bytes eb.cursor in
    let ends = above-EndsLine eb v h in
    let goal : aim eb ≡ eb.cursor - start eb = aim_fresh eb g in
    rw (up_eq eb h) (
      down_cursor eb
        (EndsLine-unique eb.bytes eb.len (above eb + column_above eb) _ _
          (line_end-EndsLine (went_up eb) (above eb + column_above eb)
            (omega (arith, ends.behind, ends.inside)))
          ends)
        h (omega (arith, here.before, v.cursor_in)) (omega (arith, cursor-le-end eb v))
      ∙ omega (arith, here.before))
