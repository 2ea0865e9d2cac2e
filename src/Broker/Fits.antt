-- ===== src/Broker/Fits.antt =====
-- The texts that `consume` of broker/broker.c sends, and the rounds and ids that requests use up.
use mathlib.Core.Path.{subst}
use bmb.Base.{
  ℕ, suc, ◌+◌, ◌^◌, ◌≤◌, ◌<◌, ◌≡◌, refl, List, [], ◌∷◌, ◌++◌, arith, length, length-append,
}
use bmb.Base.Text.{CString}
use bmb.Util.Url.{Decoded, decoded, refused, url_decode}
use bmb.World.{Ptr}
use bmb.World.Chain.{Cell, Cells}
use bmb.Persist.Store.{Log, last_id, last_id-append, messages, messages-append}
use bmb.Queue.Kept.{log_of, log_of-append, new_id}
use bmb.Pool.Kept.{texts_of}
use bmb.Broker.{c_string}

-- The text that `consume` sends for a message.
unfoldable pub plain_text : Decoded → CString
plain_text (decoded bytes) = c_string bytes
plain_text (refused bytes) = []

abbrev pub IsDecoded : Decoded → Type 0
IsDecoded (decoded bytes) = Unit
IsDecoded (refused bytes) = ⊥

abbrev pub AllDecoded : List CString → Type 0
AllDecoded [] = Unit
AllDecoded (m ∷ l) = IsDecoded (url_decode m) × AllDecoded l

last_id_le : (i : ℕ) (log : Log) → last_id 0 log ≤ last_id i log
last_id_le i [] = omega arith
last_id_le i ((j, m) ∷ log) = omega arith

AllDecoded-append :
    (l : List CString) (m : CString)
    → AllDecoded l
    → IsDecoded (url_decode m)
    → AllDecoded (l ++ m ∷ [])
AllDecoded-append [] m h d = (d, tt)
AllDecoded-append (n ∷ l) m h d = (h.0, AllDecoded-append l m h.1 d)

pub decoded_bytes :
    (d : Decoded)
    → IsDecoded d
    → (bytes : List ℕ) × (d ≡ decoded bytes) × (plain_text d ≡ c_string bytes)
unfolding plain_text
decoded_bytes (decoded bytes) h = (bytes, refl, refl)
decoded_bytes (refused bytes) h = absurd h

-- The queue has rounds and ids left for `n` requests, and its messages can be decoded.
pub record Fits (n rounds : ℕ) (xs : Cells) : Type 0 where
  pub enough : length xs + n ≤ rounds
  pub ids : last_id 0 (log_of xs) + n < 2 ^ 31
  pub texts : AllDecoded (texts_of xs)

pub Fits-less : {n rounds : ℕ} {xs : Cells} → Fits (suc n) rounds xs → Fits n rounds xs
Fits-less f = record {
  enough = omega (arith, f.enough);
  ids = omega (arith, f.ids);
  texts = f.texts;
}

pub Fits-put :
    {n rounds : ℕ} {xs : Cells} {fresh : Ptr} {m : CString}
    → IsDecoded (url_decode m)
    → Fits (suc n) rounds xs
    → Fits n rounds (record { at = fresh; id = new_id xs; message = m } ∷ xs)
Fits-put {xs} {m} d f = record {
  enough = omega (arith, f.enough);
  ids = rw last_id-append (omega (arith, f.ids));
  texts = rw messages-append (AllDecoded-append (texts_of xs) m f.texts d);
}

pub Fits-take :
    {n rounds : ℕ} (xs : Cells) (c : Cell) → Fits (suc n) rounds (xs ++ c ∷ []) → Fits n rounds xs
Fits-take {n} xs c f = record {
  enough = omega (arith, f.enough, length-append xs (c ∷ []));
  ids = omega (
    arith,
    subst (λ l. last_id 0 l + suc n < 2 ^ 31) (log_of-append xs c) f.ids,
    last_id_le c.id (log_of xs),
  );
  texts = (subst (λ l. AllDecoded (messages l)) (log_of-append xs c) f.texts).1;
}
