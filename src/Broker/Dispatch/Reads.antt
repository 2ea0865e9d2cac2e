-- ===== src/Broker/Dispatch/Reads.antt =====
-- Requests of type `length`, `get` and `getAll` to `broker_dispatch` of broker/broker.c on a pool
-- whose queues agree with their directories.
use bmb.Base.{
  ℕ, zero, suc, ◌≤◌, ◌≡◌, refl, ◌∙◌, sym, ap, false, Bool-cases, inl, inr, List, [], ◌∷◌, ◌++◌,
  ◌==◌, arith, length, length-append, get_elem?,
}
use bmb.Base.Text.{CString}
use bmb.Run.Returns.{returns}
use bmb.Disk.{Files}
use bmb.Disk.Table.{Assoc}
use bmb.World.{null, World}
use bmb.World.Chain.{Cells}
use bmb.Persist.Store.{messages-append}
use bmb.Queue.Kept.{log_of}
use bmb.Pool.{QueuePool}
use bmb.Pool.Kept.{Contents, texts_of}
use bmb.Reply.{Cjson}
use bmb.Broker.{BrokerRequest}
use bmb.Broker.Reading.{texts, got, length_action-length, get-got, get_all-texts}
use bmb.Broker.Dispatch.Routes.{
  broker_dispatch-length, broker_dispatch-get, broker_dispatch-get_all, length_missing, get_missing,
  get_all_missing, get_unindexed,
}
use bmb.Broker.Dispatch.Checks.{length-refused}
use bmb.Broker.Dispatch.Contents.{
  length_of, bare_length_of, get_at, get_all_of, newest_first, picked, told, Asks, answer, after,
  IsProper,
}
use bmb.Broker.Dispatch.Holds.{Holds, Answers, Located, absent, located, Stepped-same}

newest_first-append :
    (l : List CString) (m : CString) → newest_first (l ++ m ∷ []) ≡ m ∷ newest_first l
newest_first-append [] m = refl
newest_first-append (k ∷ l) m = ap (λ x. x ++ k ∷ []) (newest_first-append l m)

texts-texts_of : (xs : Cells) → texts xs ≡ newest_first (texts_of xs)
texts-texts_of [] = refl
texts-texts_of (c ∷ xs) =
    ap (◌∷◌ c.message) (texts-texts_of xs)
    ∙ sym (newest_first-append (texts_of xs) c.message)
    ∙ sym (ap newest_first (messages-append (log_of xs) c.id c.message))

length-texts_of : (xs : Cells) → length (texts_of xs) ≡ length xs
length-texts_of [] = refl
length-texts_of (c ∷ xs) =
    ap length (messages-append (log_of xs) c.id c.message)
    ∙ omega (arith, length-append (texts_of xs) (c.message ∷ []), length-texts_of xs)

got-picked :
    (lib : Cjson) (xs : Cells) (j : ℕ)
    → got lib (get_elem? xs j) ≡ picked lib (get_elem? (texts xs) j)
unfolding picked
got-picked lib [] j = refl
got-picked lib (c ∷ xs) zero = refl
got-picked lib (c ∷ xs) (suc j) = got-picked lib xs j

module _ (lib : Cjson) {dirs : Assoc Files} {w : World} {p : QueuePool} {cells : ℕ → Cells}
    {s : Contents} {rounds n : ℕ} (h : Holds dirs w p cells s rounds (suc n)) where
  enough : (i : ℕ) → length (cells i) ≤ rounds
  enough i = omega (arith, (h.fits i).enough)

  pub step_length :
      (req : BrokerRequest) (name : CString)
      → Asks (length_of name) req
      → IsProper (length_of name)
      → Located p cells s name
      → Answers lib (length_of name) req w p cells s rounds n
  unfolding answer after
  step_length req [] ask proper v = absurd proper
  step_length req (c ∷ t) ask proper (absent e none_there unnamed) =
      rw (length_missing lib rounds null p req w c t ask.1 e ask.0 ask.2)
        (returns (Stepped-same h lib (length_of (c ∷ t)) _ (rw none_there) refl))
  step_length req (c ∷ t) ask proper (located i q e at same shown) =
      rw
        (
          broker_dispatch-length lib rounds null p req w i c t ask.1 e ask.0 ask.2,
          length_action-length lib {w = w} rounds p i (h.pool.kept i q at).queue at (enough i),
        )
        (returns
          (Stepped-same h lib (length_of (c ∷ t)) _ (rw (shown, length-texts_of (cells i))) refl))

  pub step_bare_length :
      (req : BrokerRequest) (name : CString)
      → Asks (bare_length_of name) req
      → Answers lib (bare_length_of name) req w p cells s rounds n
  unfolding answer after told
  step_bare_length req name ask =
      rw (length-refused lib rounds null p req w ask.0 ask.2)
        (returns (Stepped-same h lib (bare_length_of name) _ refl refl))

  pub step_get :
      (req : BrokerRequest) (name : CString) (index : ℕ)
      → Asks (get_at name index) req
      → IsProper (get_at name index)
      → Located p cells s name
      → Answers lib (get_at name index) req w p cells s rounds n
  unfolding answer after told
  step_get req [] index ask proper v = absurd proper
  step_get req (c ∷ t) index ask proper v = elim (Bool-cases (index == 0)) [
    | inl z ↦
        rw (get_unindexed lib rounds null p req w c t ask.0 (ap (λ k. k == 0) ask.2 ∙ z))
          (returns (Stepped-same h lib (get_at (c ∷ t) index) _ (rw z) refl))
    | inr z ↦ indexed z v
  ]
    where
      indexed :
          (index == 0) ≡ false
          → Located p cells s (c ∷ t)
          → Answers lib (get_at (c ∷ t) index) req w p cells s rounds n
      indexed z (absent e none_there unnamed) =
          rw (get_missing lib rounds null p req w c t ask.1 e ask.0 (ap (λ k. k == 0) ask.2 ∙ z))
            (returns (Stepped-same h lib (get_at (c ∷ t) index) _ (rw (z, none_there)) refl))
      indexed z (located i q e at same shown) =
          rw
            (
              broker_dispatch-get lib rounds null p req w i c t ask.1 e ask.0
                  (ap (λ k. k == 0) ask.2 ∙ z),
              get-got lib {w = w} rounds p i (h.pool.kept i q at).queue at (enough i) req,
              ask.2,
            )
            (returns (
              Stepped-same h lib (get_at (c ∷ t) index) _
                (got-picked lib (cells i) index
                  ∙ ap (λ l. picked lib (get_elem? l index)) (texts-texts_of (cells i))
                  ∙ rw (z, shown))
                refl))

  pub step_get_all :
      (req : BrokerRequest) (name : CString)
      → Asks (get_all_of name) req
      → IsProper (get_all_of name)
      → Located p cells s name
      → Answers lib (get_all_of name) req w p cells s rounds n
  unfolding answer after
  step_get_all req [] ask proper v = absurd proper
  step_get_all req (c ∷ t) ask proper (absent e none_there unnamed) =
      rw (get_all_missing lib rounds null p req w c t ask.1 e ask.0)
        (returns (Stepped-same h lib (get_all_of (c ∷ t)) _ (rw none_there) refl))
  step_get_all req (c ∷ t) ask proper (located i q e at same shown) =
      rw
        (
          broker_dispatch-get_all lib rounds null p req w i c t ask.1 e ask.0,
          get_all-texts lib {w = w} rounds p i (h.pool.kept i q at).queue at (enough i),
        )
        (returns
          (Stepped-same h lib (get_all_of (c ∷ t)) _ (rw (shown, texts-texts_of (cells i))) refl))
