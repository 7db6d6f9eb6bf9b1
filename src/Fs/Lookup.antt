-- ===== src/Fs/Lookup.antt =====
-- `fs_find` of kernel/fs.c, and the entry that it is to find.
use kernel_basic.Prelude.{
  ℕ, zero, suc, ◌+◌, ◌<◌, ◌≡◌, ◌⊎◌, inl, inr, Bool, true, false, ◌&&◌, List, [], ◌∷◌, none, some,
  get_or, length, arith, Bool-cases, Option-cases,
}
use mathlib.Core.Path.{subst}
use kernel_basic.Prelude.Int.{ℤ}
use kernel_basic.Prelude.Bytes.{c_text}
use kernel_basic.Fs.Name.{fs_name_eq, fs_name_eq_sound, fs_name_eq_complete}
use kernel_basic.Fs.Disk.{Fs, Dirent, no_entry, entry}
use kernel_basic.Fs.Table.{is_child, find_from, fs_find}

-- The test of the loop.
abbrev hits : ℤ → List ℕ → Dirent → Bool
hits parent name e = is_child parent e && fs_name_eq e.name name

-- The entry is in use in the folder, under a name that reads the same.
pub record IsNamed (parent : ℤ) (name : List ℕ) (e : Dirent) : Type 0 where
  pub child : is_child parent e ≡ true
  pub same : c_text e.name ≡ c_text name

hits-IsNamed :
    (parent : ℤ) (name : List ℕ) (e : Dirent) → hits parent name e ≡ true → IsNamed parent name e
hits-IsNamed parent name e h = record {
  child = ground arith;
  same = fs_name_eq_sound e.name name (ground arith);
}

not_hits :
    (parent : ℤ) (name : List ℕ) (e : Dirent) → hits parent name e ≡ false → ¬ IsNamed parent name e
not_hits parent name e h n =
    let same = fs_name_eq_complete e.name name n.same in let child = n.child in ground arith

-- What the loop found: the first hit, `d` entries on.
record Found (parent : ℤ) (name : List ℕ) (es : List Dirent) (i id d : ℕ) : Type 0 where
  at : id ≡ i + d
  inside : d < length es
  hit : hits parent name (get_or es d no_entry) ≡ true
  first : (k : ℕ) → k < d → hits parent name (get_or es k no_entry) ≡ false

first_later :
    (parent : ℤ) (name : List ℕ) (e : Dirent) (es : List Dirent) (d : ℕ)
    → hits parent name e ≡ false
    → ((k : ℕ) → k < d → hits parent name (get_or es k no_entry) ≡ false)
    → (k : ℕ) → k < suc d
    → hits parent name (get_or (e ∷ es) k no_entry) ≡ false
first_later parent name e es d n f zero l = n
first_later parent name e es d n f (suc k) l = f k (omega arith)

find_from-some :
    (parent : ℤ) (name : List ℕ) (es : List Dirent) (i id : ℕ)
    → find_from parent name i es ≡ some id
    → (d : ℕ) × Found parent name es i id d
unfolding find_from
find_from-some parent name [] i id h = absurd (ground arith)
find_from-some parent name (e ∷ es) i id h = elim (Bool-cases (hits parent name e)) [
  | inl y ↦
      let k : i ≡ id = ground arith in
      (
        0,
        record {
          at = omega (arith, k);
          inside = omega arith;
          hit = y;
          first = λ k l. absurd (omega arith);
        },
      )
  | inr n ↦
      let (d, f) = find_from-some parent name es (i + 1) id (ground arith) in
      (
        suc d,
        record {
          at = omega (arith, f.at);
          inside = omega (arith, f.inside);
          hit = f.hit;
          first = first_later parent name e es d n f.first;
        },
      )
]

find_from-none :
    (parent : ℤ) (name : List ℕ) (es : List Dirent) (i k : ℕ)
    → find_from parent name i es ≡ none
    → k < length es
    → hits parent name (get_or es k no_entry) ≡ false
unfolding find_from
find_from-none parent name [] i k h l = absurd (omega arith)
find_from-none parent name (e ∷ es) i zero h l = ground arith
find_from-none parent name (e ∷ es) i (suc k) h l =
    find_from-none parent name es (i + 1) k (ground arith) (omega arith)

-- fs_find returns the first entry of the table that is in use in the folder and whose name reads
-- as the given text, and none exactly where the table has no such entry.
pub fs_find_lem :
    (fs : Fs) (parent : ℤ) (name : List ℕ)
    → ((id : ℕ) × (fs_find fs parent name ≡ some id)
        × (id < length fs.table)
        × IsNamed parent name (entry fs id)
        × ((k : ℕ) → k < id → ¬ IsNamed parent name (entry fs k)))
      ⊎ ((fs_find fs parent name ≡ none)
          × ((k : ℕ) → k < length fs.table → ¬ IsNamed parent name (entry fs k)))
unfolding fs_find entry
fs_find_lem fs parent name = elim (Option-cases (find_from parent name 0 fs.table)) [
  | inl n ↦ inr (
    n,
    λ k l.
        not_hits parent name (get_or fs.table k no_entry)
          (find_from-none parent name fs.table 0 k n l),
  )
  | inr (id, h) ↦
      let (d, f) = find_from-some parent name fs.table 0 id h in
      let k : d ≡ id = omega (arith, f.at) in
      inl (
        id,
        h,
        omega (arith, f.inside, k),
        subst (λ j. IsNamed parent name (get_or fs.table j no_entry)) k
            (hits-IsNamed parent name (get_or fs.table d no_entry) f.hit),
        λ j l. not_hits parent name (get_or fs.table j no_entry) (f.first j (omega (arith, k))),
      )
]
