-- ===== src/Http/Blocks/Handled.antt =====
-- The blocks of a response that http/response/response.c has handled and assembled.
use bmb.Base.{◌≡◌, refl, ◌∙◌, Bool, true, false, not, ◌||◌, List, [], ◌∷◌, ◌++◌, ◌==◌, arith}
use bmb.Run.{Cmd}
use bmb.Run.Returns
use bmb.Run.Returns.{Returns, returns}
use bmb.World.{Ptr, null}
use bmb.Util.Mem.{Memory, IsMalloc, Owns, Owns-Same, free-Owns, alloc-Owns}
use bmb.Http.Blocks.{ResponseBlocks, set_error_blocks, handle_blocks, assemble_blocks}
use bmb.Http.Blocks.Responses.{
  response_blocks, HasHeaders, null_behind, set_headers-Owns, set_status-Owns, body-Owns,
}

module _ (malloc : List Ptr → Ptr) (h : IsMalloc malloc) {m0 : Memory} where
  set_error-Owns :
      {m : Memory} (r : ResponseBlocks) (bs : List Ptr)
      → HasHeaders m0 bs r m
      → Returns
          (λ r' m'. (r'.res_string ≡ null) × Owns m0 (response_blocks r' ++ bs) m')
          (set_error_blocks malloc r m)
  unfolding set_error_blocks
  set_error-Owns r bs b =
      Returns.bind
        (free-Owns r.body (response_blocks r ++ bs)
          (response_blocks (record r { body = null }) ++ bs) (λ a. omega arith, omega arith) b.owns)
        λ _ m1 o1.
          let r' : ResponseBlocks = record r { body = null } in
          Returns.bind
            (body-Owns malloc h r' bs
              (record { body = refl; res_string = b.res_string; owns = o1 }))
            λ body m2 o2. returns {a = record r { body = body }} (b.res_string, o2)

-- The broker takes the blocks that were there before the thread from one state to another, whatever
-- blocks the thread holds.
abbrev pub Brokers : Memory → Memory → Cmd Memory (Unit {0}) → Type 0
Brokers m0 m1 broker =
    (bs : List Ptr) (m : Memory) → Owns m0 bs m → Returns (λ _ m'. Owns m1 bs m') (broker m)

-- The blocks beside those of a thread, by whether it has asked the broker.
abbrev pub beside : Bool → Memory → Memory → Memory
beside true m0 m1 = m1
beside false m0 m1 = m0

HasHeaders-base :
    {m0 m1 m m' : Memory} {r : ResponseBlocks} {bs : List Ptr}
    → HasHeaders m0 bs r m
    → Owns m1 (response_blocks r ++ bs) m'
    → HasHeaders m1 bs r m'
HasHeaders-base b o = record { body = b.body; res_string = b.res_string; owns = o }

module _ (malloc : List Ptr → Ptr) (h : IsMalloc malloc) {m0 : Memory} where
  -- The blocks that a handled response has lost: its first status, where cJSON gives no text.
  pub handle-Owns :
      {m1 m : Memory} {broker : Cmd Memory (Unit {0})} (there printed : Bool) (r : ResponseBlocks)
      (bs : List Ptr)
      → Brokers m0 m1 broker
      → r.status ≡ null
      → r.headers ≡ null
      → r.texts ≡ []
      → HasHeaders m0 bs r m
      → Returns
          (λ r' m'.
            (r'.res_string ≡ null)
            × ((lost : Ptr) × ((lost == null) ≡ (not there || printed))
                × Owns (beside there m0 m1) (response_blocks r' ++ lost ∷ bs) m'))
          (handle_blocks malloc broker there printed r m)
  unfolding handle_blocks
  handle-Owns false printed r bs asks no_status none_yet no_texts b =
      Returns.bind (set_headers-Owns malloc h r bs none_yet no_texts b) λ r1 m1 (same, b1).
        Returns.bind (set_status-Owns malloc h r1 bs b1) λ r2 m2 (ne, b2).
          Returns.mono (set_error-Owns malloc h r2 (r1.status ∷ bs) b2)
            λ r3 m3 (blank, o3). (blank, (r1.status, ground (arith, same, no_status), o3))
  handle-Owns true false r bs asks no_status none_yet no_texts b =
      Returns.bind (set_headers-Owns malloc h r bs none_yet no_texts b) λ r1 m2 (same, b1).
        Returns.bind (asks (response_blocks r1 ++ bs) m2 b1.owns) λ _ m3 o3.
          Returns.bind (set_status-Owns malloc h r1 bs (HasHeaders-base b1 o3)) λ r2 m4 (ne, b2).
            Returns.bind (set_status-Owns malloc h r2 (r1.status ∷ bs) b2) λ r3 m5 (ne', b3).
              Returns.mono (set_error-Owns malloc h r3 (r2.status ∷ r1.status ∷ bs) b3)
                λ r4 m6 (blank, o4). (
                  blank,
                  (
                    r2.status,
                    ground (arith, ne),
                    Owns-Same (response_blocks r4 ++ r2.status ∷ bs)
                        (null_behind r4 r2.status r1.status bs (same ∙ no_status)) o4,
                  ),
                )
  handle-Owns true true r bs asks no_status none_yet no_texts b =
      Returns.bind (set_headers-Owns malloc h r bs none_yet no_texts b) λ r1 m2 (same, b1).
        Returns.bind (asks (response_blocks r1 ++ bs) m2 b1.owns) λ _ m3 o3.
          Returns.bind (set_status-Owns malloc h r1 bs (HasHeaders-base b1 o3)) λ r2 m4 (ne, b2).
            Returns.bind (body-Owns malloc h r2 (r1.status ∷ bs) b2) λ body m5 o5.
              returns {a = record r2 { body = body }}
                (b2.res_string, (r1.status, ground (arith, same, no_status), o5))

  pub assemble-Owns :
      {m : Memory} (r : ResponseBlocks) (bs : List Ptr)
      → r.res_string ≡ null
      → Owns m0 (response_blocks r ++ bs) m
      → Returns (λ r' m'. Owns m0 (response_blocks r' ++ bs) m') (assemble_blocks malloc r m)
  unfolding assemble_blocks
  assemble-Owns r bs blank o =
      Returns.bind (alloc-Owns malloc h (response_blocks r ++ bs) o) λ text m1 (ne, o1).
        let r' : ResponseBlocks = record r { res_string = text } in
        returns {a = r'} (
          Owns-Same (response_blocks r' ++ bs) (λ a. ground (arith, blank), ground (arith, blank))
            o1)
