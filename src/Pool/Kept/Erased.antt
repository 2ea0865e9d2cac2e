-- ===== src/Pool/Kept/Erased.antt =====
-- Taking a queue out of the pool of queue/queue_pool.c.
use mathlib.Core.Path.{subst}
use bmb.Base.{
  ℕ, zero, suc, ◌-◌, ◌≡◌, refl, ◌∙◌, sym, false, Bool-cases, none, some, inl, inr, List, [], ◌∷◌,
  if◌then◌else◌, ltb, ◌==◌, arith, get_elem?,
}
use bmb.Base.Text.{CString, str_eq, eq_of_str_eq}
use bmb.Disk.{Files}
use bmb.Disk.Table.{Assoc, find}
use bmb.Persist.Requests.{SameOthers, calm}
use bmb.World.{World}
use bmb.World.Chain.{Cells}
use bmb.Queue.{Queue}
use bmb.Queue.Fresh.{KeepsOthers}
use bmb.Pool.Removal.{erase_idx}
use bmb.Pool.Kept.{Contents, update, HasNoName, PoolKept, IsWhole}

-- Where the queue at an index stood before the one at `i` was taken out.
unfoldable pub skip : ℕ → ℕ → ℕ
skip i j = if ltb j i then j else suc j

get_elem?-erase_idx :
    (qs : List Queue) (i j : ℕ) → get_elem? (erase_idx qs i) j ≡ get_elem? qs (skip i j)
unfolding skip
get_elem?-erase_idx [] i j = refl
get_elem?-erase_idx (q ∷ qs) zero j = ground arith
get_elem?-erase_idx (q ∷ qs) (suc i) zero = ground arith
get_elem?-erase_idx (q ∷ qs) (suc i) (suc j) =
    let moved : (if ltb (suc j) (suc i) then suc j else suc (suc j)) ≡ suc (skip i j) =
      ground arith in
    rw moved (get_elem?-erase_idx qs i j)

skip-ne : (i j : ℕ) → (i == skip i j) ≡ false
unfolding skip
skip-ne i j = ground arith

skip-ne_skip : (i j l : ℕ) → (j == l) ≡ false → (skip i j == skip i l) ≡ false
unfolding skip
skip-ne_skip i j l h = ground arith

unskip : (i j : ℕ) → (i == j) ≡ false → (l : ℕ) × (skip i l ≡ j)
unfolding skip
unskip i j h = (if ltb j i then j else j - 1, ground arith)

HasNoName-erased :
    (qs : List Queue) (i : ℕ) (q : Queue)
    → get_elem? qs i ≡ some q
    → (n : CString) → str_eq q.name n ≡ false
    → HasNoName n (erase_idx qs i)
    → HasNoName n qs
HasNoName-erased qs i q at n ne absent j r there = elim (Bool-cases (i == j)) [
  | inl e ↦ ground (arith, at)
  | inr e ↦ let (l, back) = unskip i j e in absent l r (get_elem?-erase_idx qs i l ∙ rw back there)
]

module _ {dirs dirs' : Assoc Files} {w w' : World} {qs : List Queue} {cells : ℕ → Cells}
    {s : Contents} (i : ℕ) (q : Queue) (k : PoolKept dirs w qs cells s)
    (at : get_elem? qs i ≡ some q) (calmed : w'.disk ≡ calm dirs')
    (others : KeepsOthers (cells i) q.name dirs w dirs' w') where
  erased :
      (j : ℕ) (r : Queue) → get_elem? (erase_idx qs i) j ≡ some r → get_elem? qs (skip i j) ≡ some r
  erased j r there = sym (get_elem?-erase_idx qs i j) ∙ there

  -- The queue at the index is taken out, with its directory.
  pub PoolKept-erase :
      PoolKept dirs' w' (erase_idx qs i) (λ j. cells (skip i j)) (update q.name none s)
  unfolding update
  PoolKept-erase = record {
    disk = calmed;
    kept = λ j r there.
        others.0 r (cells (skip i j)) (k.names i (skip i j) q r (skip-ne i j) at (erased j r there))
          (λ a h. ground (arith, k.apart i (skip i j) a (skip-ne i j), h))
          (k.kept (skip i j) r (erased j r there));
    names = λ j l r t ne there there'.
        k.names (skip i j) (skip i l) r t (skip-ne_skip i j l ne) (erased j r there)
          (erased l t there');
    apart = λ j l a ne. k.apart (skip i j) (skip i l) a (skip-ne_skip i j l ne);
    shown = λ j r there.
        rw (k.names i (skip i j) q r (skip-ne i j) at (erased j r there))
          (k.shown (skip i j) r (erased j r there));
    hidden = λ n absent. elim (Bool-cases (str_eq q.name n)) [
      | inl e ↦ rw e
      | inr e ↦ rw e (k.hidden n (HasNoName-erased qs i q at n e absent))
    ];
  }

pub IsWhole-erase :
    (dirs dirs' : Assoc Files) (qs : List Queue) (i : ℕ) (q : Queue)
    → get_elem? qs i ≡ some q
    → find q.name dirs' ≡ none
    → SameOthers q.name dirs dirs'
    → IsWhole dirs qs
    → IsWhole dirs' (erase_idx qs i)
IsWhole-erase dirs dirs' qs i q at gone same whole n absent = elim (Bool-cases (str_eq q.name n)) [
  | inl e ↦ subst (λ m. find m dirs' ≡ none) (eq_of_str_eq q.name n e) gone
  | inr e ↦ same n e ∙ whole n (HasNoName-erased qs i q at n e absent)
]
