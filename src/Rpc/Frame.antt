-- ===== src/Rpc/Frame.antt =====
-- src/core/corsa_jsonrpc/src/jsonrpc/frame.rs: Content-Length framing over a buffered reader and
-- a writer. `usize` has 64 bits; a failed reservation of memory is not modelled.
pub mod Decimal
pub mod Header
pub mod RoundTrip
pub mod Safety
pub mod Progress
pub mod Tests
use Decimal.{append_usize, parse_ascii_usize}
use Header.{Search, header_end, parse_content_length}
use corsa_bind.Io.Stream.{
  Reader, fill, consume_chunks, read_exact, Writer, write_all, flush, ◌then◌,
}
use corsa_bind.Common.{
  ℕ, ◌+◌, ◌-◌, ◌*◌, Bool, true, false, Option, none, some, List, [], ◌∷◌, ◌++◌, Bytes, codes,
  length, take, drop, ltb, if◌then◌else◌,
}
use corsa_bind.Core.Error.{CorsaError, protocol, closed, join, IoError, io, Result, ok, err, ◌>>=◌}
use corsa_bind.Core.Text.{Text, Arg, literal}

abbrev pub max_header_bytes : ℕ
max_header_bytes = 16 * 1024

abbrev pub max_body_bytes : ℕ
max_body_bytes = 512 * 1024 * 1024

abbrev body_too_large : ℕ → Text
body_too_large n = record {
  format = "jsonrpc body is too large: {} bytes exceeds {} byte safety limit";
  args = Arg.num n ∷ Arg.num max_body_bytes ∷ [];
}

module _ (searches : Search) where
  -- The loop of `read_content_length`, over the chunks to come and with the header so far.
  unfoldable pub read_header : Bytes → List Bytes → Option IoError → Result (ℕ × List Bytes)
  read_header header [] ending = fill [] ending >>= λ _. err (closed "jsonrpc reader")
  read_header header ([] ∷ chunks) ending = err (closed "jsonrpc reader")
  read_header header ((b ∷ bs) ∷ chunks) ending =
      let grown = header ++ (b ∷ bs) in
      let again = read_header grown chunks ending in
      elim (searches.memmem grown header_end) [
        | some index ↦
            let header_len = index + length header_end in
            let consumed = header_len - length header in
            parse_content_length searches (take header_len grown) >>= λ n.
            ok (n, consume_chunks consumed ((b ∷ bs) ∷ chunks))
        | none ↦
            if ltb max_header_bytes (length grown)
            then err (protocol (literal "jsonrpc header is too large"))
            else again
      ]

  abbrev pub read_content_length : Reader → Result (ℕ × Reader)
  read_content_length r = do
    (n, left) ← read_header [] r.chunks r.ending
    ok (n, record r { chunks = left })

  unfoldable pub read_frame : Reader → Result (Bytes × Reader)
  read_frame r = do
    (content_length, r') ← read_content_length r
    if ltb max_body_bytes content_length
        then err (protocol (body_too_large content_length))
        else read_exact content_length r'

-- `none` is the panic of a write past the end of the digit array.
abbrev pub frame_header : ℕ → Option Bytes
frame_header n = elim (append_usize (codes "Content-Length: ") n) [
  | none ↦ none
  | some header ↦ some (header ++ header_end)
]

unfoldable pub write_frame : Bytes → Writer → Option (Writer × Result (Unit {0}))
write_frame body w = elim (frame_header (length body)) [
  | none ↦ none
  | some header ↦ some ((write_all header then write_all body then flush) w)
]
