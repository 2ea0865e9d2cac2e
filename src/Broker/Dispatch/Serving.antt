-- ===== src/Broker/Dispatch/Serving.antt =====
-- Requests of type `produce` and `consume` to `broker_dispatch` of broker/broker.c on a pool whose
-- queues agree with their directories.
use mathlib.Core.Path.{subst}
use bmb.Base.{
  ℕ, suc, ◌≡◌, ◌∙◌, ap, true, false, some, Bool-cases, inl, inr, [], ◌∷◌, ◌++◌, ◌==◌, arith,
  length-append, get_elem?,
}
use bmb.Base.Text.{CString}
use bmb.Run.Returns
use bmb.Run.Returns.{Returns, returns}
use bmb.Disk.{Files}
use bmb.Disk.Table.{Assoc}
use bmb.Util.Url.{url_decode}
use bmb.World.{Ptr, null, World}
use bmb.World.Chain.{Cell, Cells, has, has-append, EndView, empty_end, last_end, end_view}
use bmb.Persist.Store.{messages, messages-append}
use bmb.Queue.{Queue}
use bmb.Queue.Kept.{IsKept, log_of, log_of-append, new_id}
use bmb.Pool.{QueuePool, queue_pool_get_by_name}
use bmb.Pool.Kept.{Contents, texts_of, set_cells}
use bmb.Reply.{Cjson}
use bmb.Broker.{BrokerRequest}
use bmb.Broker.Fits.{decoded_bytes, Fits, Fits-put, Fits-take, AllDecoded}
use bmb.Broker.Produce.{produce-IsKept}
use bmb.Broker.Consume.{consume-IsKept, consume_empty}
use bmb.Broker.Dispatch.Routes.{
  broker_dispatch-consume, broker_dispatch-produce, consume_missing, produce_missing,
}
use bmb.Broker.Dispatch.Contents.{produce_to, consume_from, Asks, answer, after, IsProper}
use bmb.Broker.Dispatch.Holds.{
  Holds, IsFree, Answers, Located, absent, located, Stepped-same, Holds-put, eq_of_test,
  IsFree-set_cells,
}

test_comm : (i j : ℕ) → (i == j) ≡ false → (j == i) ≡ false
test_comm i j h = ground arith

-- An address that no queue has is none of theirs.
ne_of_free :
    (fresh a : Ptr) (ys : Cells) → has fresh ys ≡ false → has a ys ≡ true → (a == fresh) ≡ false
ne_of_free fresh a ys free there = elim (Bool-cases (a == fresh)) [
  | inl e ↦ ground (arith, ap (λ b. has b ys) (eq_of_test a fresh e))
  | inr e ↦ e
]

module _ (lib : Cjson) {dirs : Assoc Files} {w : World} {p : QueuePool} {cells : ℕ → Cells}
    {s : Contents} {rounds n : ℕ} (h : Holds dirs w p cells s rounds (suc n)) where
  pub step_produce :
      (req : BrokerRequest) (name : CString) (fresh : Ptr) (m : CString)
      → Asks (produce_to name fresh m) req
      → IsProper (produce_to name fresh m)
      → IsFree fresh cells
      → Located p cells s name
      → Answers lib (produce_to name fresh m) req w p cells s rounds n
  unfolding answer after
  step_produce req [] fresh m ask proper free v = absurd proper.0
  step_produce req (c ∷ t) fresh [] ask proper free v = absurd proper.1
  step_produce req (c ∷ t) fresh (b ∷ m) ask proper free (absent e none_there unnamed) =
      rw (produce_missing lib rounds fresh p req w c t ask.1 e b m ask.0 ask.2) (
        returns
          (Stepped-same h lib (produce_to (c ∷ t) fresh (b ∷ m)) _ (rw none_there) (rw none_there)))
  step_produce req (c ∷ t) fresh (b ∷ m) ask proper free (located i q e at same shown) =
      let x : Cell = record { at = fresh; id = new_id (cells i); message = b ∷ m } in
      let k = h.pool.kept i q at in
      let (dirs', made) =
        produce-IsKept lib fresh p i req (b ∷ m) k at ask.2 proper.2 (free i)
          (omega (arith, (h.fits i).ids)) in
      rw (broker_dispatch-produce lib rounds fresh p req w i c t ask.1 e b m ask.0 ask.2) (
        Returns.mono made λ (res, p') w' (answered, q', put, name, kept, others). (
          answered ∙ rw shown,
          dirs',
          set_cells i (x ∷ cells i) cells,
          (Holds-put h p' (after (produce_to (c ∷ t) fresh (b ∷ m)) s) i q q' (x ∷ cells i) (x ∷ [])
              at put name (λ j a ne there. rw (ne_of_free fresh a (cells j) (free j) there))
              (λ j a ne there. rw (
                ne_of_free fresh a (cells j) (free j) there,
                h.pool.apart j i a (test_comm i j ne) there,
              ))
              kept others (Fits-put proper.3 (h.fits i))
              (rw (shown, ← messages-append (log_of (cells i)) x.id x.message, same))),
          λ a ne free'. IsFree-set_cells a i (x ∷ cells i) cells free' (rw (ne, free' i)),
        ))

  consume_found :
      (req : BrokerRequest) (c i : ℕ) (t : CString) (q : Queue)
      → Asks (consume_from (c ∷ t)) req
      → queue_pool_get_by_name p (some (c ∷ t)) ≡ some i
      → get_elem? p.pool i ≡ some q
      → q.name ≡ c ∷ t
      → (xs : Cells) → EndView xs
      → s (c ∷ t) ≡ some (texts_of xs)
      → IsKept dirs w q xs
      → Fits (suc n) rounds xs
      → ((j : ℕ) (a : Ptr) → (i == j) ≡ false → has a (cells j) ≡ true → has a xs ≡ false)
      → ((a : Ptr) → IsFree a cells → has a xs ≡ false)
      → Answers lib (consume_from (c ∷ t)) req w p cells s rounds n
  unfolding answer after
  consume_found req c i t q ask e at same xs empty_end shown k fits apart own =
      rw (broker_dispatch-consume lib rounds null p req w i c t ask.1 e ask.0) (
        rw (consume_empty lib w q rounds p i k.queue at)
          (returns (Stepped-same h lib (consume_from (c ∷ t)) _ (rw shown) (rw shown))))
  consume_found req c i t q ask e at same xs (last_end ys y) shown k fits apart own =
      let oldest = log_of-append ys y in
      let texts = subst (λ l. AllDecoded (messages l)) oldest fits.texts in
      let (bytes, text, plain) = decoded_bytes (url_decode y.message) texts.0 in
      let (dirs', taken) =
        consume-IsKept lib ys y rounds p i bytes k at
          (omega (arith, fits.enough, length-append ys (y ∷ []))) text in
      let inside : (a : Ptr) → has a (ys ++ y ∷ []) ≡ false → has a ys ≡ false =
        λ a out. ground (arith, has-append a ys (y ∷ [])) in
      rw (broker_dispatch-consume lib rounds null p req w i c t ask.1 e ask.0) (
        Returns.mono taken λ (res, p') w' ((answered, q', put, name, kept, others), gone). (
          answered ∙ rw (shown, oldest, plain),
          dirs',
          set_cells i ys cells,
          Holds-put h p' (after (consume_from (c ∷ t)) s) i q q' ys (ys ++ y ∷ []) at put name apart
              (λ j a ne there. inside a (apart j a ne there)) kept others (Fits-take ys y fits)
              (rw (shown, oldest, same)),
          λ a ne free. IsFree-set_cells a i ys cells free (inside a (own a free)),
        ))

  pub step_consume :
      (req : BrokerRequest) (name : CString)
      → Asks (consume_from name) req
      → IsProper (consume_from name)
      → Located p cells s name
      → Answers lib (consume_from name) req w p cells s rounds n
  unfolding answer after
  step_consume req [] ask proper v = absurd proper
  step_consume req (c ∷ t) ask proper (absent e none_there unnamed) =
      rw (consume_missing lib rounds null p req w c t ask.1 e ask.0)
        (returns (Stepped-same h lib (consume_from (c ∷ t)) _ (rw none_there) (rw none_there)))
  step_consume req (c ∷ t) ask proper (located i q e at same shown) =
      consume_found req c i t q ask e at same (cells i) (end_view (cells i)) shown
        (h.pool.kept i q at) (h.fits i)
        (λ j a ne there. h.pool.apart j i a (test_comm i j ne) there) (λ a free. free i)
