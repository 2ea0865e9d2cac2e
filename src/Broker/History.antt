-- ===== src/Broker/History.antt =====
-- Histories of `produce` and `consume` of broker/broker.c on one queue.
use mathlib.Core.Path.{subst, ap₂}
use bmb.Base.{
  ℕ, ◌≡◌, ◌≢◌, refl, ◌∙◌, sym, Bool, true, false, ◌||◌, none, some, List, [], ◌∷◌, ◌++◌, arith,
  ◌==◌, length, length-append, get_elem?,
}
use bmb.Base.Text.{CString, codes}
use bmb.Run.{Cmd, pure, ◌>>=◌}
use bmb.Run.Returns
use bmb.Run.Returns.{Returns, returns}
use bmb.Disk.{Files}
use bmb.Disk.Table.{Assoc}
use bmb.Util.Url.{url_decode}
use bmb.World.{Ptr, null, World}
use bmb.World.Chain.{Cell, Cells, has, has-append, EndView, empty_end, last_end, end_view}
use bmb.Persist.Store.{messages, messages-append}
use bmb.Queue.{Queue}
use bmb.Queue.Kept.{IsKept, log_of, log_of-append, new_id}
use bmb.Pool.{QueuePool}
use bmb.Reply.{Cjson, BrokerResponse, create_response}
use bmb.Broker.{BrokerRequest, c_string, produce, consume}
use bmb.Broker.Fits.{
  plain_text, IsDecoded, decoded_bytes, Fits, AllDecoded, Fits-less, Fits-put, Fits-take,
}
use bmb.Broker.Produce.{produce-IsKept}
use bmb.Broker.Consume.{consume-IsKept, consume_empty}

-- `put fresh m` is a request to produce `m`, for which `malloc` gives `fresh`.
pub data Op : Type 0 where
  put : Ptr → CString → Op
  take : Op

abbrev pub produce_request : CString → BrokerRequest
produce_request m = record {
  kind = some (codes "produce");
  queue_name = none;
  index = 0;
  payload = some m;
}

abbrev is_put : Ptr → Op → Bool
is_put a (put p m) = a == p
is_put a take = false

abbrev takes_address : Ptr → List Op → Bool
takes_address a [] = false
takes_address a (op ∷ ops) = is_put a op || takes_address a ops

-- New nodes are at addresses that no other node has, and every message can be decoded.
abbrev pub IsReady : List Op → Type 0
IsReady [] = Unit
IsReady (take ∷ ops) = IsReady ops
IsReady (put p m ∷ ops) =
    (p ≢ null) × (takes_address p ops ≡ false) × IsDecoded (url_decode m) × IsReady ops

abbrev pub IsApart : List Op → Cells → Type 0
IsApart ops xs = (a : Ptr) → takes_address a ops ≡ true → has a xs ≡ false

module _ (lib : Cjson) where
  pub perform : ℕ → ℕ → QueuePool → Op → Cmd World (BrokerResponse × QueuePool)
  perform rounds i p (put fresh m) = produce lib fresh p i (produce_request m)
  perform rounds i p take = consume lib rounds p i

  -- The requests one after another.
  pub serve : ℕ → ℕ → QueuePool → List Op → Cmd World (List BrokerResponse × QueuePool)
  serve rounds i p [] = pure ([], p)
  serve rounds i p (op ∷ ops) = do
    (res, p') ← perform rounds i p op
    (rest, p'') ← serve rounds i p' ops
    pure (res ∷ rest, p'')

  -- What a first-in first-out queue of texts answers.
  unfoldable pub answers : List Op → List CString → List BrokerResponse
  unfolding plain_text
  answers [] l = []
  answers (put fresh m ∷ ops) l =
      create_response lib true 200 (some (codes "Message produced.")) none none
      ∷ answers ops (l ++ m ∷ [])
  answers (take ∷ ops) [] =
      create_response lib false 200 (some (codes "Queue is empty.")) none none ∷ answers ops []
  answers (take ∷ ops) (m ∷ l) =
      create_response lib true 200 none (some (plain_text (url_decode m))) none ∷ answers ops l

-- What holds before each request: the state, and enough rounds and ids for the requests to come.
pub record IsServed (dirs : Assoc Files) (w : World) (p : QueuePool) (i : ℕ) (q : Queue)
    (xs : Cells) (rounds : ℕ) (ops : List Op) : Type 0 where
  pub kept : IsKept dirs w q xs
  pub at : get_elem? p.pool i ≡ some q
  pub ready : IsReady ops
  pub apart : IsApart ops xs
  pub fits : Fits (length ops) rounds xs

module _ {dirs : Assoc Files} {w : World} {p : QueuePool} {i : ℕ} {q : Queue} {rounds : ℕ}
    {ops : List Op} where
  after_put :
      {xs : Cells} {fresh : Ptr} {m : CString} {dirs' : Assoc Files} {w' : World} {p' : QueuePool}
      (q' : Queue)
      → IsServed dirs w p i q xs rounds (put fresh m ∷ ops)
      → IsKept dirs' w' q' (record { at = fresh; id = new_id xs; message = m } ∷ xs)
      → get_elem? p'.pool i ≡ some q'
      → IsServed dirs' w' p' i q'
          (record { at = fresh; id = new_id xs; message = m } ∷ xs)
          rounds
          ops
  after_put {xs} {fresh} {m} q' s kept at = record {
    kept = kept;
    at = at;
    ready = s.ready.3;
    apart = λ a t. ground (arith, s.apart a, s.ready.1);
    fits = Fits-put s.ready.2 s.fits;
  }

  after_take :
      (xs : Cells) (c : Cell) {dirs' : Assoc Files} {w' : World} {p' : QueuePool} (q' : Queue)
      → IsServed dirs w p i q (xs ++ c ∷ []) rounds (take ∷ ops)
      → IsKept dirs' w' q' xs
      → get_elem? p'.pool i ≡ some q'
      → IsServed dirs' w' p' i q' xs rounds ops
  after_take xs c q' s kept at = record {
    kept = kept;
    at = at;
    ready = s.ready;
    apart = λ a t. ground (arith, s.apart a t, has-append a xs (c ∷ []));
    fits = Fits-take xs c s.fits;
  }

  after_nothing : IsServed dirs w p i q [] rounds (take ∷ ops) → IsServed dirs w p i q [] rounds ops
  after_nothing s = record {
    kept = s.kept;
    at = s.at;
    ready = s.ready;
    apart = λ a t. refl;
    fits = Fits-less s.fits;
  }

-- The responses of a history, with the state that it leaves: the queue still agrees with its
-- directory.
abbrev pub Answered :
    (lib : Cjson) → ℕ → List Op → List CString → List BrokerResponse × QueuePool → World → Type 0
Answered lib i ops l (rs, p') w' =
    (rs ≡ answers lib ops l)
    × ((dirs' : Assoc Files) × (q' : Queue) × (xs' : Cells) × (get_elem? p'.pool i ≡ some q')
        × IsKept dirs' w' q' xs')

module _ (lib : Cjson) where
  -- One request, and then the others.
  serve-step :
      (rounds i : ℕ) (p : QueuePool) (w : World) (op : Op) (ops : List Op) (l l' : List CString)
      (res : BrokerResponse)
      → answers lib (op ∷ ops) l ≡ res ∷ answers lib ops l'
      → Returns
          (λ (r, p') w'. (r ≡ res) × Returns (Answered lib i ops l') (serve lib rounds i p' ops w'))
          (perform lib rounds i p op w)
      → Returns (Answered lib i (op ∷ ops) l) (serve lib rounds i p (op ∷ ops) w)
  unfolding serve
  serve-step rounds i p w op ops l l' res head first = Returns.bind first λ (r, p') w' (same, rest).
      Returns.bind rest λ (rs, p'') w'' (told, state). returns (ap₂ ◌∷◌ same told ∙ sym head, state)

  serve_lem :
      (ops : List Op) (rounds i : ℕ) (dirs : Assoc Files) (w : World) (p : QueuePool) (q : Queue)
      (xs : Cells)
      → EndView xs
      → IsServed dirs w p i q xs rounds ops
      → Returns (Answered lib i ops (messages (log_of xs))) (serve lib rounds i p ops w)
  unfolding serve answers perform
  serve_lem [] rounds i dirs w p q xs v s =
      returns {a = ([], p)} (refl, (dirs, q, xs, s.at, s.kept))
  serve_lem (put fresh m ∷ ops) rounds i dirs w p q xs v s =
      let c : Cell = record { at = fresh; id = new_id xs; message = m } in
      let (dirs', made) =
        produce-IsKept lib fresh p i (produce_request m) m s.kept s.at refl s.ready.0
          (s.apart fresh (ground arith)) (omega (arith, s.fits.ids)) in
      serve-step rounds i p w (put fresh m) ops (messages (log_of xs)) (messages (log_of (c ∷ xs)))
        (create_response lib true 200 (some (codes "Message produced.")) none none)
        (rw messages-append)
        (Returns.mono made λ (r, p') w' (told, q', here, name, kept, others). (
          told,
          serve_lem ops rounds i dirs' w' p' q' (c ∷ xs) (end_view (c ∷ xs))
              (after_put q' s kept here.0),
        ))
  serve_lem (take ∷ ops) rounds i dirs w p q xs empty_end s =
      serve-step rounds i p w take ops [] []
        (create_response lib false 200 (some (codes "Queue is empty.")) none none) refl
        (rw (consume_empty lib w q rounds p i s.kept.queue s.at)
          (returns (refl, serve_lem ops rounds i dirs w p q [] empty_end (after_nothing s))))
  serve_lem (take ∷ ops) rounds i dirs w p q xs (last_end ys c) s =
      let oldest = log_of-append ys c in
      let texts = subst (λ l. AllDecoded (messages l)) oldest s.fits.texts in
      let (bytes, text, plain) = decoded_bytes (url_decode c.message) texts.0 in
      let (dirs', taken) =
        consume-IsKept lib ys c rounds p i bytes s.kept s.at
          (omega (arith, s.fits.enough, length-append ys (c ∷ []))) text in
      serve-step rounds i p w take ops (messages (log_of (ys ++ c ∷ []))) (messages (log_of ys))
        (create_response lib true 200 none (some (c_string bytes)) none) (rw (oldest, plain))
        (Returns.mono taken λ (r, p') w' (acted, gone). (
          acted.0,
          serve_lem ops rounds i dirs' w' p' acted.1 ys (end_view ys)
              (after_take ys c acted.1 s acted.4 acted.2.0),
        ))

  -- Any history of producing and consuming on a queue that agrees with its directory, with new
  -- nodes at addresses of their own, messages that can be decoded, and enough ids and rounds, runs
  -- to its end, answers as a first-in first-out queue of texts, and leaves a queue that agrees with
  -- its directory.
  pub serve-answers :
      {dirs : Assoc Files} {w : World} {p : QueuePool} {i : ℕ} {q : Queue} {xs : Cells} (rounds : ℕ)
      (ops : List Op)
      → IsServed dirs w p i q xs rounds ops
      → Returns (Answered lib i ops (messages (log_of xs))) (serve lib rounds i p ops w)
  serve-answers {dirs} {w} {p} {i} {q} {xs} rounds ops s =
      serve_lem ops rounds i dirs w p q xs (end_view xs) s
