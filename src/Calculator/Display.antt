-- ===== src/Calculator/Display.antt =====
-- The display of gui/apps/calculator.c, which is drawn and read as a NUL-terminated text.
use kernel_basic.Prelude.{
  ℕ, zero, suc, ◌+◌, ◌-◌, ◌<◌, ◌≡◌, ◌⊎◌, inl, inr, refl, sym, ap, ap₂, ◌∙◌, Bool, true, ◌&&◌, List,
  [], ◌∷◌, ◌++◌, ltb, ◌==◌, if◌then◌else◌, set, get_or, length, length-set, arith, if_ind, take,
  length-take, Bool-cases,
}
use kernel_basic.Prelude.Bytes.{c_text}
use kernel_basic.Prelude.Splice.{take-set, take-set-last}
use kernel_basic.Calculator.{Calculator, start_entry, display_size, calc_append_digit}

-- The display's text ends within the array, where its length says.
pub record IsValid (s : Calculator) : Type 0 where
  pub storage : length s.display ≡ display_size
  pub room : s.display_len < display_size
  pub ends : c_text s.display ≡ take s.display_len s.display

-- The text before a digit's key is typed: none after a result, and none where only a 0 is shown.
abbrev pub before : Calculator → List ℕ
before s =
    if s.entry_active
    then (if s.display_len == 1 && get_or s.display 0 0 == 48 then [] else c_text s.display)
    else []

c_text-c_text : (d : List ℕ) → c_text (c_text d) ≡ c_text d
c_text-c_text [] = refl
c_text-c_text (x ∷ d) = ground (arith, c_text-c_text d)

-- A character and a NUL behind a text without NULs.
c_text-set :
    (n : ℕ) (d : List ℕ) (c : ℕ)
    → n + 1 < length d
    → 0 < c
    → c_text (take n d) ≡ take n d
    → c_text (set (set d n c) (n + 1) 0) ≡ take n d ++ (c ∷ [])
c_text-set zero [] c l p h = absurd (omega arith)
c_text-set zero (x ∷ []) c l p h = absurd (omega arith)
c_text-set zero (x ∷ y ∷ d) c l p h = ground (arith, p)
c_text-set (suc n) [] c l p h = absurd (omega arith)
c_text-set (suc n) (x ∷ d) c l p h =
    let more = c_text-set n d c (omega (arith, l)) p in ground (arith, more, h)

-- What `start_entry` leaves: the same bytes, and as much of them as is kept.
record Started (s b : Calculator) : Type 0 where
  bytes : b.display ≡ s.display
  on : b.entry_active ≡ true
  text : take b.display_len s.display ≡ before s
  kept : (b.display_len ≡ 0) ⊎ (b.display_len ≡ s.display_len)

active-Started :
    (s : Calculator)
    → IsValid s
    → let test = s.display_len == 1 && get_or s.display 0 0 == 48 in
      let on = record s { entry_active = true } in
      Started on (if test then record on { display_len = 0 } else on)
active-Started s v =
    let test = s.display_len == 1 && get_or s.display 0 0 == 48 in
    let on = record s { entry_active = true } in
    if_ind (Started on) test
      (λ k. record {
        bytes = refl;
        on = refl;
        text = sym (ap (λ b. if b then [] else c_text s.display) k);
        kept = inl refl;
      })
      (λ k. record {
        bytes = refl;
        on = refl;
        text = sym (ap (λ b. if b then [] else c_text s.display) k ∙ v.ends);
        kept = inr refl;
      })

start_entry-Started : (s : Calculator) → IsValid s → Started s (start_entry s)
unfolding start_entry
start_entry-Started s v = elim (Bool-cases s.entry_active) [
  | inl e ↦ rw e (active-Started s v)
  | inr e ↦ rw e record { bytes = refl; on = refl; text = refl; kept = inl refl }
]

before-c_text : (s : Calculator) → c_text (before s) ≡ before s
before-c_text s = ground (arith, c_text-c_text s.display)

-- On a display whose NUL-terminated text ends within the array where display_len says, a key of a
-- character other than NUL makes that text end in the character: behind the text before it, or
-- alone where a result or a lone 0 was shown; where 15 characters are shown already the text
-- stays. The display keeps its terminator where display_len says, and the entry is active.
pub calc_append_digit_lem :
    (s : Calculator) (d : ℕ)
    → IsValid s
    → 0 < d
    → let r = calc_append_digit s d in
      IsValid r
      × (r.entry_active ≡ true)
      × (c_text r.display
          ≡ (if ltb (length (before s)) (display_size - 1) then before s ++ (d ∷ []) else before s))
unfolding calc_append_digit
calc_append_digit_lem s d v pos =
    let b = start_entry s in
    let st = start_entry-Started s v in
    let n = b.display_len in
    let below : n < display_size = elim st.kept [
      | inl e ↦ omega (arith, e)
      | inr e ↦ omega (arith, e, v.room)
    ] in
    let text : take n b.display ≡ before s = ap (take n) st.bytes ∙ st.text in
    let storage : length b.display ≡ display_size = ap length st.bytes ∙ v.storage in
    let size : length (before s) ≡ n =
      ap length (sym text) ∙ omega (arith, length-take n b.display, below, storage) in
    let one = set b.display n d in
    let choice = λ (x : Bool). if x then before s ++ (d ∷ []) else before s in
    let goal = λ (r : Calculator).
      IsValid r
      × (r.entry_active ≡ true)
      × (c_text r.display ≡ choice (ltb (length (before s)) (display_size - 1))) in
    let chosen = ap (λ i. choice (ltb i (display_size - 1))) size in
    if_ind goal (ltb n (display_size - 1))
      (λ k.
        let shown : c_text (set one (n + 1) 0) ≡ take n b.display ++ (d ∷ []) =
          c_text-set n b.display d (ground (arith, k, storage)) pos
            (ap c_text text ∙ before-c_text s ∙ sym text) in
        let upto : take (n + 1) (set one (n + 1) 0) ≡ take n b.display ++ (d ∷ []) =
          take-set (n + 1) one 0
          ∙ ap (λ i. take i one) {y = suc n} (omega arith)
          ∙ take-set-last n b.display d (omega (arith, below, storage)) in
        (
          record {
            storage = length-set one (n + 1) 0 ∙ length-set b.display n d ∙ storage;
            room = ground arith;
            ends = shown ∙ sym upto;
          },
          st.on,
          shown ∙ ap (λ t. t ++ (d ∷ [])) text ∙ sym (chosen ∙ ap choice k),
        ))
      (λ k.
        let whole : n ≡ s.display_len = elim st.kept [
          | inl e ↦ absurd (ground (arith, e, k))
          | inr e ↦ e
        ] in
        let ends : c_text b.display ≡ take n b.display =
          ap c_text st.bytes ∙ v.ends ∙ sym (ap₂ take whole st.bytes) in
        (
          record { storage = storage; room = below; ends = ends },
          st.on,
          ends ∙ text ∙ sym (chosen ∙ ap choice k),
        ))
