-- ===== src/Rpc/Frame/RoundTrip.antt =====
-- A frame written by `write_frame` is read back by `read_frame`, however the transport cuts it.
use corsa_bind.Common.{
  ℕ, ◌+◌, ◌-◌, ◌≤◌, ◌<◌, Option, none, some, List, [], ◌∷◌, ◌++◌, Bytes, length, take, drop, concat,
  nat_eq, ◌≡◌, ◌≢◌, refl, sym, ap, ◌∙◌, arith, append_assoc, append_overlap, take-append,
  length-append, ge→ltb, codes,
}
use corsa_bind.Core.Error.{IoError, ok}
use corsa_bind.Rpc.Frame.Decimal.{usize_mod}
use corsa_bind.Rpc.Frame.Decimal.RoundTrip.{Denotes, append_usize_total}
use corsa_bind.Rpc.Frame.Header.{Search, header_end, parse_content_length}
use corsa_bind.Rpc.Frame.Header.Locate.{find_sub, memmem-find_sub}
use corsa_bind.Rpc.Frame.Header.Written.{
  name_and_colon, NoBreak, written-NoBreak, parse_content_length_written,
}
use corsa_bind.Io.Stream.{
  put_back, consume_chunks, read_chunks, read_chunks-append, put_back-append, put_back-IsLive,
  IsLive, Writer, fresh_writer,
}
use corsa_bind.Rpc.Frame.{
  max_header_bytes, max_body_bytes, read_header, read_frame, frame_header, write_frame,
}
use mathlib.Core.Path.{ap₂}
use native.Mathlib.Decide.{dec_lt}

-- The end of the header is found where the header ends.
find_sub_whole :
    (h t : Bytes) → NoBreak h → find_sub header_end (h ++ (header_end ++ t)) ≡ some (length h)
unfolding find_sub
find_sub_whole [] t n = refl
find_sub_whole (c ∷ h) t n = ground (arith, find_sub_whole h t n.1)

-- And not before all of it has arrived.
find_sub_part :
    (p h q : Bytes)
    → NoBreak h
    → p ++ q ≡ h ++ header_end
    → length p < length h + 4
    → find_sub header_end p ≡ none
unfolding find_sub
find_sub_part [] h q n e lt = refl
find_sub_part (x ∷ p) (c ∷ h) q n e lt = ground (arith, find_sub_part p h q n.1)
find_sub_part (a ∷ []) [] q n e lt = ground arith
find_sub_part (a ∷ b ∷ []) [] q n e lt = ground arith
find_sub_part (a ∷ b ∷ c ∷ []) [] q n e lt = ground arith
find_sub_part (a ∷ b ∷ c ∷ d ∷ p) [] q n e lt = absurd (omega arith)

module _ (searches : Search) (ending : Option IoError) where
  read_header_more :
      (header c : Bytes) (cs : List Bytes)
      → 1 ≤ length c
      → searches.memmem (header ++ c) header_end ≡ none
      → length (header ++ c) ≤ max_header_bytes
      → read_header searches header (c ∷ cs) ending ≡ read_header searches (header ++ c) cs ending
  unfolding read_header
  read_header_more header [] cs l m le = elim l [ ]
  read_header_more header (b ∷ bs) cs l m le = ground arith

  read_header_done :
      (header c : Bytes) (cs : List Bytes) (index n : ℕ)
      → 1 ≤ length c
      → searches.memmem (header ++ c) header_end ≡ some index
      → parse_content_length searches (take (index + 4) (header ++ c)) ≡ ok n
      → read_header searches header (c ∷ cs) ending
        ≡ ok (n, consume_chunks (index + 4 - length header) (c ∷ cs))
  unfolding read_header
  read_header_done header [] cs index n l m p = elim l [ ]
  read_header_done header (b ∷ bs) cs index n l m p = ground arith

  module _ (h rest : Bytes) (n : ℕ) (clean : NoBreak h) (small : length h + 4 ≤ max_header_bytes)
      (parses : parse_content_length searches (h ++ header_end) ≡ ok n) where
    read_header_written :
        (header : Bytes) (cs : List Bytes)
        → IsLive cs
        → header ++ concat cs ≡ (h ++ header_end) ++ rest
        → length header < length h + 4
        → (left : List Bytes) × (read_header searches header cs ending ≡ ok (n, left))
          × (concat left ≡ rest)
          × IsLive left
    read_header_written header [] l e lt = absurd (
        omega (
          arith,
          ap length e,
          length-append header [],
          length-append (h ++ header_end) rest,
          length-append h header_end,
        ))
    read_header_written header (c ∷ cs) l e lt =
        let cut : (header ++ c) ++ concat cs ≡ (h ++ header_end) ++ rest =
          append_assoc header c (concat cs) ∙ e in
        elim (dec_lt (length (header ++ c)) (length h + 4)) [
          | yes short ↦
              let (t, p, _) =
                append_overlap (header ++ c) (concat cs) (h ++ header_end) rest cut
                  (omega (arith, length-append h header_end)) in
              let (left, r, u, live) = read_header_written (header ++ c) cs l.1 cut short in
              (
                left,
                read_header_more header c cs l.0
                      (memmem-find_sub searches (header ++ c) header_end (λ x. cc)
                        ∙ find_sub_part (header ++ c) h t clean (sym p) short)
                      (omega arith)
                    ∙ r,
                u,
                live,
              )
          | no long ↦
              let (t, p, q) =
                append_overlap (h ++ header_end) rest (header ++ c) (concat cs) (sym cut)
                  (omega (arith, length-append h header_end)) in
              let (u, v, w) =
                append_overlap header c (h ++ header_end) t p
                  (omega (arith, length-append h header_end)) in
              let size : length h + 4 ≡ length (h ++ header_end) =
                sym (length-append h header_end) in
              (
                put_back (drop (length u) c) cs,
                read_header_done header c cs (length h) n l.0
                      (memmem-find_sub searches (header ++ c) header_end (λ x. cc)
                        ∙ ap (find_sub header_end) (p ∙ append_assoc h header_end t)
                        ∙ find_sub_whole h t clean)
                      (ap (parse_content_length searches)
                          (ap₂ take size p ∙ take-append (h ++ header_end) t)
                        ∙ parses)
                    ∙ ap (λ (k : ℕ). ok (n, consume_chunks k (c ∷ cs)))
                        (omega (arith, ap length v, length-append header u)),
                put_back-append c u t cs w ∙ sym q,
                put_back-IsLive _ cs l.1,
              )
        ]

-- The header that is written for a 64-bit length: the field's name, its digits, two line ends.
pub frame_header_total :
    (n : ℕ)
    → n < usize_mod
    → (ds : Bytes) × (frame_header n ≡ some ((name_and_colon ++ ds) ++ header_end))
      × Denotes n ds
      × (length ds ≤ 20)
      × (ds ≢ [])
frame_header_total n h =
    let (ds, e, d, l, ne) = append_usize_total name_and_colon n h in
    (ds, rw (e, frame_header) refl, d, l, ne)

pub write_frame_written :
    (body header : Bytes)
    → frame_header (length body) ≡ some header
    → write_frame body fresh_writer
      ≡ some (
        record { written = header ++ body; flushed = length (header ++ body); outcomes = [] },
        ok tt,
      )
unfolding write_frame
write_frame_written body header e = rw (e, write_frame) refl

-- The frame of a body: the field's name, the body's length in decimal, two line ends, the body.
pub record IsFrame (body bytes : Bytes) : Type 0 where
  pub length_digits : Bytes
  pub denotes : Denotes (length body) length_digits
  pub layout : bytes ≡ ((codes "Content-Length: " ++ length_digits) ++ codes "\r\n\r\n") ++ body

-- With every call of the writer succeeding, write_frame of a body of at most the limit returns without an
-- error and without a panic. What was written is the field `Content-Length` with the body's length in
-- decimal, an empty line and the body, and all of it is flushed.
pub write_frame_total :
    (body : Bytes)
    → length body ≤ max_body_bytes
    → (w : Writer) × (write_frame body fresh_writer ≡ some (w, ok tt))
      × IsFrame body w.written
      × (w.flushed ≡ length w.written)
write_frame_total body le =
    let (ds, e, d, _, _) = frame_header_total (length body) (omega arith) in
    let header = (name_and_colon ++ ds) ++ header_end in
    (
      record { written = header ++ body; flushed = length (header ++ body); outcomes = [] },
      write_frame_written body header e,
      record { length_digits = ds; denotes = d; layout = refl },
      refl,
    )

module _ (searches : Search) (ending : Option IoError) where
  read_frame_done :
      (cs left after : List Bytes) (n : ℕ) (body : Bytes)
      → read_header searches [] cs ending ≡ ok (n, left)
      → n ≤ max_body_bytes
      → read_chunks n left ending ≡ ok (body, after)
      → read_frame searches (record { chunks = cs; ending = ending })
        ≡ ok (body, record { chunks = after; ending = ending })
  unfolding read_frame
  read_frame_done cs left after n body h le r =
      rw (h, read_frame) (rw (ge→ltb max_body_bytes n le, read_frame) (rw (r, read_frame) refl))

  read_frame_header :
      (body ds rest : Bytes) (cs : List Bytes)
      → length body ≤ max_body_bytes
      → Denotes (length body) ds
      → length ds ≤ 20
      → ds ≢ []
      → IsLive cs
      → concat cs ≡ (((name_and_colon ++ ds) ++ header_end) ++ body) ++ rest
      → (left : List Bytes) × (read_frame searches (record { chunks = cs; ending = ending })
          ≡ ok (body, record { chunks = left; ending = ending }))
        × (concat left ≡ rest)
        × IsLive left
  read_frame_header body ds rest cs le d l ne live e =
      let h = name_and_colon ++ ds in
      let (mid, read, between, live') =
        read_header_written searches ending h (body ++ rest) (length body)
          (written-NoBreak ds d.all_digits) (omega (arith, length-append name_and_colon ds))
          (parse_content_length_written searches ds (length body) ne d (omega arith)) [] cs live
          (e ∙ append_assoc (h ++ header_end) body rest)
          (omega (arith, length-append name_and_colon ds)) in
      let (left, body_read, rest_left, live'') =
        read_chunks-append body rest mid ending live' between in
      (left, read_frame_done cs mid left (length body) body read le body_read, rest_left, live'')

-- The round trip. Whatever frame `write_frame` wrote for a body within the limit, and however the
-- transport cuts the frame and the bytes behind it into non-empty chunks, `read_frame` returns that
-- body, and leaves the reader at exactly the bytes behind the frame.
pub read_frame-write_frame :
    (searches : Search) (ending : Option IoError) (body rest : Bytes) (cs : List Bytes) (w : Writer)
    → length body ≤ max_body_bytes
    → write_frame body fresh_writer ≡ some (w, ok tt)
    → IsLive cs
    → concat cs ≡ w.written ++ rest
    → (left : List Bytes) × (read_frame searches (record { chunks = cs; ending = ending })
        ≡ ok (body, record { chunks = left; ending = ending }))
      × (concat left ≡ rest)
      × IsLive left
read_frame-write_frame searches ending body rest cs w le wrote live e =
    let (ds, he, d, l, ne) = frame_header_total (length body) (omega arith) in
    let same : w.written ≡ ((name_and_colon ++ ds) ++ header_end) ++ body =
      cc (wrote, write_frame_written body ((name_and_colon ++ ds) ++ header_end) he) in
    read_frame_header searches ending body ds rest cs le d l ne live
      (e ∙ ap (λ (b : Bytes). b ++ rest) same)
