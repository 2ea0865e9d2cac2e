-- ===== src/Examples/Restarted.antt =====
-- The theorem on loading the queues of the disk at two concrete directories.
use mathlib.Core.List.{Permᴰ}
use mathlib.Core.Path.{subst}
use bmb.Base.{
  ℕ, ◌+◌, ◌*◌, ◌≡◌, ◌≢◌, refl, ◌∙◌, true, false, none, [], ◌∷◌, arith, Bool-cases, inl, inr, ◌⊎◌,
  ap, sym, All, if◌then◌else◌,
}
use bmb.Base.Text.{CString, codes, str_eq, str_eq_refl, eq_of_str_eq}
use bmb.Disk.{Files}
use bmb.Disk.Table.{Assoc, has, find, keys, Distinct}
use bmb.Persist.Store.{Log, files_of}
use bmb.Persist.Requests.{calm}
use bmb.Persist.Requests.Listing.{IsEntry}
use bmb.World.{World}
use bmb.World.Chain.{Cells}
use bmb.Pool.{queue_pool_init}
use bmb.Pool.Kept.{PoolKept, IsWhole, nothing}
use bmb.Pool.Load.{queue_pool_load}
use bmb.Pool.Load.Awaited.{IsSaved, IsFreshPool, with_logs}
use bmb.Pool.Load.Startup.{queue_pool_load-PoolKept}
use bmb.Run.Returns.{Returns}
use bmb.Persist.{before_eof}
use bmb.World.{Ptr}
use bmb.Pool.Load.Nodes.{IsFresh, AllSurvive}
use bmb.Examples.{name, two_log}

two_log-AllSurvive : AllSurvive two_log
two_log-AllSurvive = (unfold before_eof in refl, (unfold before_eof in refl, tt))

-- Two directories, and the addresses of their nodes.
abbrev pub two_dirs : Assoc Files
two_dirs = (name, files_of two_log) ∷ (codes "jobs", []) ∷ []

abbrev pub logs : CString → Log
logs n = if str_eq n name then two_log else []

abbrev pub addresses : CString → ℕ → Ptr
addresses n i = if str_eq n name then 2 * i + 100 else 2 * i + 101

abbrev pub two_world : World
two_world = record { heap = λ a. none; disk = calm two_dirs }

addresses-IsFresh : (n : CString) → IsFresh (addresses n)
addresses-IsFresh n = elim (Bool-cases (str_eq n name)) [
  | inl e ↦ rw e (λ i z. absurd (omega arith), λ i j z. omega arith)
  | inr e ↦ rw e (λ i z. absurd (omega arith), λ i j z. omega arith)
]

abbrev pub jobs : CString
jobs = codes "jobs"

pub name_or_jobs : (n : CString) → has n two_dirs ≡ true → (name ≡ n) ⊎ (jobs ≡ n)
unfolding has
name_or_jobs n there = elim (Bool-cases (str_eq name n)) [
  | inl e ↦ inl (eq_of_str_eq name n e)
  | inr e ↦ inr (eq_of_str_eq jobs n (ground arith))
]

not_same : (k n m : CString) → k ≡ n → k ≡ m → str_eq n m ≡ false → ⊥
not_same k n m e e' ne = absurd (ground (arith, ap (λ l. str_eq l m) (sym e ∙ e'), str_eq_refl m))

addresses_apart :
    (n m : CString) (i j : ℕ)
    → has n two_dirs ≡ true
    → has m two_dirs ≡ true
    → str_eq n m ≡ false
    → addresses n i ≢ addresses m j
unfolding str_eq
addresses_apart n m i j a b ne = elim (name_or_jobs n a) [
  | inl e ↦ elim (name_or_jobs m b) [
    | inl e' ↦ absurd (not_same name n m e e' ne)
    | inr e' ↦ rw (← e, ← e') (λ z. absurd (omega arith))
  ]
  | inr e ↦ elim (name_or_jobs m b) [
    | inl e' ↦ rw (← e, ← e') (λ z. absurd (omega arith))
    | inr e' ↦ absurd (not_same jobs n m e e' ne)
  ]
]

pub addresses-IsFreshPool : IsFreshPool addresses two_dirs
addresses-IsFreshPool = record { each = addresses-IsFresh; apart = addresses_apart }

mail-IsSaved : IsSaved two_dirs name (logs name)
unfolding str_eq find
mail-IsSaved = record {
  directory = record {
    files = files_of two_log;
    found = refl;
    stored = Permᴰ.cons refl (Permᴰ.cons refl Permᴰ.nil);
    is_log = (omega arith, omega arith, (omega arith, omega arith, tt));
  };
  short = omega arith;
  alive = two_log-AllSurvive;
}

jobs-IsSaved : IsSaved two_dirs jobs (logs jobs)
unfolding str_eq find
jobs-IsSaved = record {
  directory = record { files = []; found = refl; stored = Permᴰ.nil; is_log = tt };
  short = omega arith;
  alive = tt;
}

pub two_dirs-IsSaved : (n : CString) → has n two_dirs ≡ true → IsSaved two_dirs n (logs n)
two_dirs-IsSaved n there = elim (name_or_jobs n there) [
  | inl e ↦ subst (λ m. IsSaved two_dirs m (logs m)) e mail-IsSaved
  | inr e ↦ subst (λ m. IsSaved two_dirs m (logs m)) e jobs-IsSaved
]

pub two_dirs-Distinct : Distinct two_dirs
unfolding has str_eq
two_dirs-Distinct = (refl, (refl, tt))

pub two_dirs-IsEntry : All IsEntry (keys two_dirs)
unfolding str_eq
two_dirs-IsEntry = ((refl, refl), ((refl, refl), tt))

queue_pool_load-PoolKept_example :
    Returns
      (λ p' w'.
        ((cells : ℕ → Cells) × PoolKept two_dirs w' p'.pool cells (with_logs logs two_dirs nothing))
        × IsWhole two_dirs p'.pool)
      (queue_pool_load addresses queue_pool_init two_world)
queue_pool_load-PoolKept_example =
    queue_pool_load-PoolKept addresses logs two_world addresses-IsFreshPool two_dirs-Distinct
      two_dirs-IsEntry two_dirs-IsSaved refl
