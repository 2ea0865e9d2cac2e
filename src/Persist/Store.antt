-- ===== src/Persist/Store.antt =====
-- What a directory of persist/persist.c stands for: nodes in the order of their ids, the names
-- of the files.
use mathlib.Core.List.{Permᴰ}
use mathlib.Core.Path.{subst}
use bmb.Base.{
  ℕ, zero, suc, ◌^◌, ◌≤◌, ◌<◌, ◌≡◌, refl, ◌∙◌, ap, sym, inl, inr, Bool-cases, true, false, List, [],
  ◌∷◌, ◌++◌, arith, if◌then◌else◌,
}
use bmb.Base.Text.{CString, codes, str_eq_refl}
use bmb.Util.Decimal.{ℤ, pos, to_unsigned, atoi, sprintf_d}
use bmb.Util.Decimal.Print.{atoi-sprintf_d, sprintf_d_ne}
use bmb.Util.Sort.{sort_int_array_asc, insert_sorted}
use bmb.Util.Sort.Order.{
  IsId, AllIds, Ascending, sort_of_Ascending, insert_comm, insert_sorted-AllIds,
}
use bmb.Disk.{Files}
use bmb.Disk.Table.{
  perm_append_last, perm_symm, keys, find, has, put, drop, put-eq_of_not_has, has-perm, drop-perm,
  drop_of_not_has, Distinct, find-perm,
}
use bmb.Persist.{is_node_id, node_ids, next_after}

-- Ids and messages, the oldest node first.
abbrev pub Log : Type 0
Log = List (ℕ × CString)

-- Messages, the oldest first.
abbrev pub messages : Log → List CString
messages [] = []
messages ((i, m) ∷ log) = m ∷ messages log

pub messages-append :
    (log : Log) (i : ℕ) (m : CString) → messages (log ++ (i, m) ∷ []) ≡ messages log ++ m ∷ []
messages-append [] i m = refl
messages-append ((j, n) ∷ log) i m = ap (◌∷◌ n) (messages-append log i m)

abbrev pub file_of : ℕ → CString
file_of i = sprintf_d (pos i)

abbrev pub files_of : Log → Files
files_of [] = []
files_of ((i, m) ∷ log) = (file_of i, m) ∷ files_of log

abbrev pub ids : Log → List ℤ
ids [] = []
ids ((i, m) ∷ log) = pos i ∷ ids log

-- Ids ascend, are positive and fit an `int`.
abbrev pub IsLog : ℕ → Log → Type 0
IsLog lo [] = Unit
IsLog lo ((i, m) ∷ log) = (lo < i) × (i < 2 ^ 31) × IsLog i log

abbrev pub last_id : ℕ → Log → ℕ
last_id lo [] = lo
last_id lo ((i, m) ∷ log) = last_id i log

pub IsLog-mono : (lo hi : ℕ) (log : Log) → lo ≤ hi → IsLog hi log → IsLog lo log
IsLog-mono lo hi [] le h = tt
IsLog-mono lo hi ((i, m) ∷ log) le h = (omega arith, h.1, h.2)

pub le-last_id : (lo : ℕ) (log : Log) → IsLog lo log → lo ≤ last_id lo log
le-last_id lo [] h = omega arith
le-last_id lo ((i, m) ∷ log) h = omega (arith, le-last_id i log h.2)

pub IsLog-append :
    (lo n : ℕ) (m : CString) (log : Log)
    → IsLog lo log
    → last_id lo log < n
    → n < 2 ^ 31
    → IsLog lo (log ++ (n, m) ∷ [])
IsLog-append lo n m [] h below fits = (below, fits, tt)
IsLog-append lo n m ((i, w) ∷ log) h below fits = (h.0, h.1, IsLog-append i n m log h.2 below fits)

pub last_id-append : (lo n : ℕ) (m : CString) (log : Log) → last_id lo (log ++ (n, m) ∷ []) ≡ n
last_id-append lo n m [] = refl
last_id-append lo n m ((i, w) ∷ log) = last_id-append i n m log

files_of-append :
    (log : Log) (n : ℕ) (m : CString)
    → files_of (log ++ (n, m) ∷ []) ≡ files_of log ++ (file_of n, m) ∷ []
files_of-append [] n m = refl
files_of-append ((i, w) ∷ log) n m = ap (◌∷◌ (file_of i, w)) (files_of-append log n m)

-- An id outside the log's range has no file.
not-has_below :
    (lo n : ℕ) (log : Log) → IsLog lo log → n ≤ lo → has (file_of n) (files_of log) ≡ false
unfolding has
not-has_below lo n [] h le = refl
not-has_below lo n ((i, m) ∷ log) h le =
    rw (sprintf_d_ne i n (omega arith)) (not-has_below i n log h.2 (omega arith))

not-has_above :
    (lo n : ℕ) (log : Log)
    → IsLog lo log
    → last_id lo log < n
    → has (file_of n) (files_of log) ≡ false
unfolding has
not-has_above lo n [] h lt = refl
not-has_above lo n ((i, m) ∷ log) h lt =
    rw (sprintf_d_ne i n (omega (arith, le-last_id i log h.2))) (not-has_above i n log h.2 lt)

files_of-Distinct : (lo : ℕ) (log : Log) → IsLog lo log → Distinct (files_of log)
files_of-Distinct lo [] h = tt
files_of-Distinct lo ((i, m) ∷ log) h =
    (not-has_below i i log h.2 (omega arith), files_of-Distinct i log h.2)

sorted_ids : List CString → List ℤ
sorted_ids names = sort_int_array_asc (node_ids names)

add_id : ℤ → List ℤ → List ℤ
add_id a l = if is_node_id a then insert_sorted a l else l

add_id_comm :
    (a b : ℤ) (l : List ℤ)
    → IsId a
    → IsId b
    → AllIds l
    → add_id a (add_id b l) ≡ add_id b (add_id a l)
unfolding add_id
add_id_comm a b l h k all = ground (arith, insert_comm a b l h k all)

add_id-AllIds : (a : ℤ) (l : List ℤ) → IsId a → AllIds l → AllIds (add_id a l)
unfolding add_id
add_id-AllIds a l h all = elim (Bool-cases (is_node_id a)) [
  | inl e ↦ rw e (insert_sorted-AllIds a l h all)
  | inr e ↦ rw e all
]

sorted_ids-cons :
    (name : CString) (names : List CString)
    → sorted_ids (name ∷ names) ≡ add_id (atoi name) (sorted_ids names)
unfolding sorted_ids add_id node_ids sort_int_array_asc
sorted_ids-cons name names = ground arith

-- The names of the files are those of ids.
abbrev HaveIds : Files → Type 0
HaveIds [] = Unit
HaveIds (file ∷ files) = IsId (atoi file.0) × HaveIds files

HaveIds-perm : {l r : Files} → Permᴰ l r → HaveIds r → HaveIds l
HaveIds-perm Permᴰ.nil h = h
HaveIds-perm (Permᴰ.cons e p) h = (subst (λ f. IsId (atoi f.0)) (sym e) h.0, HaveIds-perm p h.1)
HaveIds-perm (Permᴰ.swap e f) h =
    (subst (λ f. IsId (atoi f.0)) (sym e) h.1.0, (subst (λ f. IsId (atoi f.0)) (sym f) h.0, h.1.1))
HaveIds-perm (Permᴰ.trans p q) h = HaveIds-perm p (HaveIds-perm q h)

sorted_ids-AllIds : (l : Files) → HaveIds l → AllIds (sorted_ids (keys l))
sorted_ids-AllIds [] h = unfold sorted_ids node_ids sort_int_array_asc in tt
sorted_ids-AllIds (a ∷ l) h =
    rw (sorted_ids-cons a.0 (keys l))
      (add_id-AllIds (atoi a.0) (sorted_ids (keys l)) h.0 (sorted_ids-AllIds l h.1))

sorted_ids-perm : {l r : Files} → Permᴰ l r → HaveIds r → sorted_ids (keys l) ≡ sorted_ids (keys r)
sorted_ids-perm Permᴰ.nil h = refl
sorted_ids-perm (Permᴰ.cons {a} {b} {l₁ = l} {l₂ = r} e p) h =
    rw (sorted_ids-cons a.0 (keys l), sorted_ids-cons b.0 (keys r), sorted_ids-perm p h.1, e)
sorted_ids-perm (Permᴰ.swap {a} {b} {a'} {b'} {l} e f) h =
    rw
      (
        e,
        f,
        sorted_ids-cons b'.0 (a'.0 ∷ keys l),
        sorted_ids-cons a'.0 (b'.0 ∷ keys l),
        sorted_ids-cons b'.0 (keys l),
        sorted_ids-cons a'.0 (keys l),
      )
      (add_id_comm (atoi b'.0) (atoi a'.0) (sorted_ids (keys l)) h.1.0 h.0
        (sorted_ids-AllIds l h.1.1))
sorted_ids-perm (Permᴰ.trans p q) h = sorted_ids-perm p (HaveIds-perm q h) ∙ sorted_ids-perm q h

files_of-HaveIds : (lo : ℕ) (log : Log) → IsLog lo log → HaveIds (files_of log)
files_of-HaveIds lo [] h = tt
files_of-HaveIds lo ((i, m) ∷ log) h =
    (subst IsId (sym (atoi-sprintf_d i)) h.1, files_of-HaveIds i log h.2)

ids-AllIds : (lo : ℕ) (log : Log) → IsLog lo log → AllIds (ids log)
ids-AllIds lo [] h = tt
ids-AllIds lo ((i, m) ∷ log) h = (h.1, ids-AllIds i log h.2)

node_ids-files_of : (lo : ℕ) (log : Log) → IsLog lo log → node_ids (keys (files_of log)) ≡ ids log
unfolding node_ids is_node_id
node_ids-files_of lo [] h = refl
node_ids-files_of lo ((zero, m) ∷ log) h = absurd (omega arith)
node_ids-files_of lo ((suc i, m) ∷ log) h =
    rw atoi-sprintf_d (ap (◌∷◌ (pos (suc i))) (node_ids-files_of (suc i) log h.2))

ids-Ascending : (lo : ℕ) (log : Log) → IsLog lo log → Ascending (pos lo) (ids log)
ids-Ascending lo [] h = tt
ids-Ascending lo ((i, m) ∷ log) h = (omega arith, ids-Ascending i log h.2)

-- Whatever the order of the directory, its sorted ids are those of the log.
pub sorted_ids-log :
    (files : Files) (log : Log)
    → IsLog 0 log
    → Permᴰ files (files_of log)
    → sort_int_array_asc (node_ids (codes "." ∷ codes ".." ∷ keys files)) ≡ ids log
sorted_ids-log files log h p =
    unfold sorted_ids node_ids is_node_id atoi in
    sorted_ids-perm p (files_of-HaveIds 0 log h)
    ∙ ap sort_int_array_asc (node_ids-files_of 0 log h)
    ∙ sort_of_Ascending (pos 0) (ids log) (ids-AllIds 0 log h) (ids-Ascending 0 log h)

next_after-cons :
    (i : ℕ) (m : CString) (log : Log)
    → i < 2 ^ 31
    → IsLog i log
    → next_after (ids ((i, m) ∷ log)) ≡ suc (last_id i log)
unfolding next_after to_unsigned
next_after-cons i m [] lt h = omega arith
next_after-cons i m ((j, w) ∷ log) lt h = next_after-cons j w log h.1 h.2

-- The next id is one more than the last.
pub next_after-ids : (log : Log) → IsLog 0 log → next_after (ids log) ≡ suc (last_id 0 log)
next_after-ids [] h = unfold next_after in refl
next_after-ids ((i, m) ∷ log) h = next_after-cons i m log h.1 h.2

drop_head :
    (i : ℕ) (m : CString) (log : Log)
    → IsLog 0 ((i, m) ∷ log)
    → drop (file_of i) (files_of ((i, m) ∷ log)) ≡ files_of log
drop_head i m log h =
    unfold drop in
    rw str_eq_refl
      (drop_of_not_has (file_of i) (files_of log) (not-has_below i i log h.2 (omega arith)))

module _ {files : Files} where
  pub add-perm :
      (n : ℕ) (m : CString) (log : Log)
      → IsLog 0 log
      → last_id 0 log < n
      → Permᴰ files (files_of log)
      → Permᴰ (put (file_of n) m files) (files_of (log ++ (n, m) ∷ []))
  add-perm n m log h lt p =
      let new = not-has_above 0 n log h lt in
      rw files_of-append (
        Permᴰ.trans (put-eq_of_not_has (file_of n) m files (has-perm (file_of n) p ∙ new))
          (Permᴰ.trans (Permᴰ.cons refl p) (perm_append_last (file_of n, m) (files_of log))))

  -- The oldest node's file goes, and the others stay.
  pub drop_oldest :
      (i : ℕ) (m : CString) (log : Log)
      → IsLog 0 ((i, m) ∷ log)
      → Permᴰ files (files_of ((i, m) ∷ log))
      → (has (file_of i) files ≡ true) × Permᴰ (drop (file_of i) files) (files_of log)
  drop_oldest i m log h p = (
    has-perm (file_of i) p ∙ unfold has in ground (arith, str_eq_refl (file_of i)),
    subst (λ l. Permᴰ (drop (file_of i) files) l) (drop_head i m log h) (drop-perm (file_of i) p),
  )

  -- A file's contents do not depend on the order of the directory.
  pub find_file :
      (k : CString) (log : Log)
      → IsLog 0 log
      → Permᴰ files (files_of log)
      → find k (files_of log) ≡ find k files
  find_file k log h p = find-perm k (perm_symm p) (files_of-Distinct 0 log h)
