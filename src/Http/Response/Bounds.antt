-- ===== src/Http/Response/Bounds.antt =====
-- The buffers of http/response/response.c.
use bmb.Base.{ℕ, ◌+◌, ◌^◌, ◌<◌, ◌≤◌, ◌≡◌, refl, List, [], ◌∷◌, ◌++◌, arith, length, length-append}
use bmb.Base.Text.{CString, codes}
use bmb.Run.{ok, crash}
use bmb.World.{World}
use bmb.Http.Response.{
  Response, protocol, header_allow_origin, header_connection_close, header_content_type,
  header_host, status_text, status_line, lines, headers_length, copied, response_set_status,
  response_set_headers, response_set_error, response_assemble,
}

-- Memory of a size has room for at least so many bytes.
abbrev pub IsRoom : (ℕ → ℕ) → Type 0
IsRoom room = (n : ℕ) → n ≤ room n

pub copied-fits :
    (room : ℕ → ℕ) (size : ℕ) (s : CString) (w : World)
    → IsRoom room
    → length s < size
    → copied room size s w ≡ ok s w
unfolding copied
copied-fits room size s w r fits = ground (arith, r size)

headers_length-lines :
    (hs : List CString) → length (lines hs) < 2 ^ 16 → headers_length hs ≡ length (lines hs)
unfolding headers_length lines
headers_length-lines [] h = refl
headers_length-lines (t ∷ hs) h =
    let size = length-append t (b'\n' ∷ lines hs) in
    omega (arith, size, headers_length-lines hs (omega (arith, size)))

-- Where memory of a size has room for so many bytes and the headers are shorter than 2^16 bytes,
-- the memory for the response has room for its text: the status, each header and the body, with a
-- line end behind the status and behind each header.
pub response_assemble-fits :
    (room : ℕ → ℕ) (r : Response) (w : World)
    → IsRoom room
    → length (lines r.headers) < 2 ^ 16
    → response_assemble room r w ≡ ok (r.status ++ b'\n' ∷ (lines r.headers ++ r.body)) w
unfolding response_assemble
response_assemble-fits room r w is fits =
    copied-fits room _ (r.status ++ b'\n' ∷ (lines r.headers ++ r.body)) w is (
      omega (
        arith,
        length-append r.status (b'\n' ∷ (lines r.headers ++ r.body)),
        length-append (lines r.headers) r.body,
        headers_length-lines r.headers fits,
      ))

pub response_set_status-line :
    (room : ℕ → ℕ) (code : ℕ) (w : World)
    → IsRoom room
    → response_set_status room code w ≡ ok (status_line code) w
unfolding response_set_status status_line
response_set_status-line room code w is =
    copied-fits room _ (protocol ++ codes " " ++ status_text code) w is (omega arith)

pub response_set_error-text :
    (room : ℕ → ℕ) (s : CString) (w : World) → IsRoom room → response_set_error room s w ≡ ok s w
unfolding response_set_error
response_set_error-text room s w is = copied-fits room _ s w is (omega arith)

abbrev pub five_headers : CString → List CString
five_headers now =
    header_allow_origin
    ∷ header_connection_close
    ∷ header_content_type
    ∷ header_host
    ∷ (codes "Date: " ++ now)
    ∷ []

-- Where memory of a size has room for so many bytes, and memory of 16 bytes even for 18, the five
-- headers are set.
pub response_set_headers-five :
    (room : ℕ → ℕ) (now : CString) (w : World)
    → IsRoom room
    → 18 ≤ room 16
    → response_set_headers room now w ≡ ok (five_headers now) w
unfolding response_set_headers
response_set_headers-five room now w is spare =
    let close : copied room 16 header_connection_close w ≡ ok header_connection_close w =
      unfold copied in ground arith in
    rw (
      copied-fits room 31 header_allow_origin w is (omega arith),
      close,
      copied-fits room 40 header_content_type w is (omega arith),
      copied-fits room 21 header_host w is (omega arith),
      copied-fits room (length (codes "Date: ") + length now + 1) (codes "Date: " ++ now) w is
          (omega arith),
      copied-fits room (length (codes "Date: " ++ now) + 1) (codes "Date: " ++ now) w is
          (omega arith),
    )

-- Where memory of a size has room for so many bytes, but memory of 16 bytes not for 18, setting the
-- headers overruns the buffer of the second one.
pub response_set_headers_overrun :
    (room : ℕ → ℕ) (now : CString) (w : World)
    → IsRoom room
    → room 16 < 18
    → response_set_headers room now w ≡ crash
unfolding response_set_headers
response_set_headers_overrun room now w is tight =
    let close : copied room 16 header_connection_close w ≡ crash = unfold copied in ground arith in
    rw (copied-fits room 31 header_allow_origin w is (omega arith), close)
