-- ===== src/Rpc/Connection/Loops/Pipeline.antt =====
-- One side's writer loop and the other side's reader loop: the messages arrive in order.
use corsa_bind.Common.{
  ℕ, suc, ◌+◌, ◌≤◌, Option, some, List, [], ◌∷◌, ◌++◌, Bytes, length, concat, append_assoc,
  append-nil, ◌≡◌, refl, sym, ap, subst, ◌∙◌, arith,
}
use corsa_bind.Core.Error.{IoError, Result, ok}
use corsa_bind.Core.Wire.{RawMessage}
use corsa_bind.Io.Stream.{
  Reader, Writer, IsLive, write_all-Emits, flush-Emits, then-Emits, fresh_writer,
}
use corsa_bind.Rpc.Connection.{Connection, Handlers}
use corsa_bind.Rpc.Connection.Loops.{receive, read_message, read_loop, write_loop}
use corsa_bind.Rpc.Connection.Loops.Ends.{read_loop-next}
use corsa_bind.Rpc.Frame.{max_body_bytes, read_frame, write_frame}
use corsa_bind.Rpc.Frame.Header.{Search, header_end}
use corsa_bind.Rpc.Frame.Header.Written.{name_and_colon}
use corsa_bind.Rpc.Frame.RoundTrip.{
  IsFrame, frame_header_total, write_frame_written, read_frame-write_frame,
}
use corsa_bind.Rpc.Message.{MessageKind, into_kind}

-- The bytes of a body's frame: what `write_frame` adds to a writer whose calls succeed.
record FrameOf (body bytes : Bytes) : Type 0 where
  is_frame : IsFrame body bytes
  fresh : (w : Writer) × (write_frame body fresh_writer ≡ some (w, ok tt)) × (w.written ≡ bytes)
  adds :
      (w : Writer)
      → w.outcomes ≡ []
      → (w' : Writer) × (write_frame body w ≡ some (w', ok tt))
        × (w'.written ≡ w.written ++ bytes)
        × (w'.outcomes ≡ [])

frame_of : (body : Bytes) → length body ≤ max_body_bytes → (bytes : Bytes) × FrameOf body bytes
unfolding write_frame
frame_of body le =
    let (ds, e, d, _, _) = frame_header_total (length body) (omega arith) in
    let header = (name_and_colon ++ ds) ++ header_end in
    (
      header ++ body,
      record {
        is_frame = record { length_digits = ds; denotes = d; layout = refl };
        fresh = (_, write_frame_written body header e, refl);
        adds = λ w h.
            let (w', run, grown, clean) =
              (then-Emits (then-Emits (write_all-Emits header) (write_all-Emits body))
                  flush-Emits).emits
                w h in
            (
              w',
              rw (e, write_frame) (ap some run),
              grown ∙ ap (λ (b : Bytes). w.written ++ b) (append-nil (header ++ body)),
              clean,
            );
      },
    )

-- The frames of bodies, one behind the other.
abbrev pub AreFrames : List Bytes → Bytes → Type 0
AreFrames [] bytes = bytes ≡ []
AreFrames (body ∷ bodies) bytes =
    (first : Bytes) × (others : Bytes) × (bytes ≡ first ++ others)
    × IsFrame body first
    × AreFrames bodies others

module _ (to_vec : RawMessage → Result Bytes) where
  -- Messages that the JSON library encodes as these bodies, each within the size limit of a frame.
  unfoldable pub Encoded : List RawMessage → List Bytes → Type 0
  Encoded [] [] = Unit
  Encoded [] (body ∷ bodies) = ⊥
  Encoded (m ∷ messages) [] = ⊥
  Encoded (m ∷ messages) (body ∷ bodies) =
      (to_vec m ≡ ok body) × (length body ≤ max_body_bytes) × Encoded messages bodies

  module _ (from_slice : Bytes → Result RawMessage) where
    -- Messages that the JSON library encodes within the size limit of a frame, and reads back as
    -- messages of these kinds, which need not be the same messages.
    unfoldable pub Sendable : List RawMessage → List MessageKind → Type 0
    Sendable [] [] = Unit
    Sendable [] (k ∷ kinds) = ⊥
    Sendable (m ∷ messages) [] = ⊥
    Sendable (m ∷ messages) (k ∷ kinds) =
        ((body : Bytes) × (to_vec m ≡ ok body)
          × (length body ≤ max_body_bytes)
          × (read : RawMessage) × (from_slice body ≡ ok read)
          × (into_kind read ≡ ok k))
        × Sendable messages kinds

-- What the reader does with messages of these kinds, in order.
abbrev pub receive_all : Handlers → List MessageKind → Connection → Connection
receive_all handlers [] c = c
receive_all handlers (k ∷ kinds) c = receive_all handlers kinds (receive handlers k c)

module _ (searches : Search) (handlers : Handlers) (to_vec : RawMessage → Result Bytes)
    (from_slice : Bytes → Result RawMessage) where
  -- The bytes of a sequence of messages: what the writer's loop adds to a writer whose calls
  -- succeed, and what the reader's loop makes of a stream that begins with them.
  record StreamOf (messages : List RawMessage) (kinds : List MessageKind) (bytes : Bytes)
      : Type 0 where
    adds :
        (w : Writer)
        → w.outcomes ≡ []
        → (w' : Writer) × (write_loop to_vec messages w ≡ some (w', ok tt))
          × (w'.written ≡ w.written ++ bytes)
    reads :
        (ending : Option IoError) (rest : Bytes) (cs : List Bytes) (fuel : ℕ) (c : Connection)
        → IsLive cs
        → concat cs ≡ bytes ++ rest
        → (left : List Bytes) × (read_loop searches handlers from_slice
              (length messages + fuel)
              (record { chunks = cs; ending = ending })
              c
            ≡ read_loop searches handlers from_slice fuel
                (record { chunks = left; ending = ending })
                (receive_all handlers kinds c))
          × (concat left ≡ rest)

  read_message-eq :
      (r r' : Reader) (body : Bytes) (m : RawMessage) (k : MessageKind)
      → read_frame searches r ≡ ok (body, r')
      → from_slice body ≡ ok m
      → into_kind m ≡ ok k
      → read_message searches handlers from_slice r ≡ ok (k, r')
  unfolding read_message
  read_message-eq r r' body m k f g h =
      rw (f, read_message) (rw (g, read_message) (rw (h, read_message) refl))

  more_fuel :
      (a b : ℕ) (r : Reader) (c : Connection)
      → a ≡ b
      → read_loop searches handlers from_slice a r c ≡ read_loop searches handlers from_slice b r c
  more_fuel a b r c e = ap (λ (n : ℕ). read_loop searches handlers from_slice n r c) e

  write_loop-next :
      (m : RawMessage) (messages : List RawMessage) (w w' : Writer) (body : Bytes)
      → to_vec m ≡ ok body
      → write_frame body w ≡ some (w', ok tt)
      → write_loop to_vec (m ∷ messages) w ≡ write_loop to_vec messages w'
  unfolding write_loop
  write_loop-next m messages w w' body e f = rw (e, write_loop) (rw (f, write_loop) refl)

  stream_of :
      (messages : List RawMessage) (kinds : List MessageKind)
      → Sendable to_vec from_slice messages kinds
      → (bytes : Bytes) × StreamOf messages kinds bytes
  unfolding Sendable write_loop
  stream_of [] [] s = (
    [],
    record {
      adds = λ w h. (w, refl, sym (append-nil w.written));
      reads = λ ending rest cs fuel c live h. (cs, more_fuel (0 + fuel) fuel _ c (omega arith), h);
    },
  )
  stream_of [] (k ∷ kinds) s = absurd s
  stream_of (m ∷ messages) [] s = absurd s
  stream_of (m ∷ messages) (k ∷ kinds) ((body, encoded, small, read, decoded, kind), s) =
      let (first, f) = frame_of body small in
      let (others, g) = stream_of messages kinds s in
      (
        first ++ others,
        record {
          adds = λ w h.
              let (w1, run1, grown1, clean1) = f.adds w h in
              let (w2, run2, grown2) = g.adds w1 clean1 in
              (
                w2,
                write_loop-next m messages w w1 body encoded run1 ∙ run2,
                grown2
                    ∙ ap (λ (b : Bytes). b ++ others) grown1
                    ∙ append_assoc w.written first others,
              );
          reads = λ ending rest cs fuel c live h.
              let (w0, run0, same) = f.fresh in
              let (mid, framed, between, live') =
                read_frame-write_frame searches ending body (others ++ rest) cs w0 small run0 live (
                  h
                  ∙ append_assoc first others rest
                  ∙ ap (λ (b : Bytes). b ++ (others ++ rest)) (sym same)) in
              let (left, run, tail) =
                g.reads ending rest mid fuel (receive handlers k c) live' between in
              (
                left,
                more_fuel (suc (length messages) + fuel) (suc (length messages + fuel)) _ c
                      (omega arith)
                    ∙ read_loop-next searches handlers from_slice (length messages + fuel) _ _ c k
                        (read_message-eq _ _ body read k framed decoded kind)
                    ∙ run,
                tail,
              );
        },
      )

  -- For messages that the JSON library encodes within the frame limit, and whose bodies it reads back as
  -- messages of some kinds: after the writer's loop has written them, then from any stream that begins
  -- with what it wrote, however it is cut into non-empty chunks, the reader's loop of another connection
  -- takes in exactly what the library reads back from each, in order, and is then at what stands behind them.
  pub read_loop-write_loop :
      (messages : List RawMessage) (kinds : List MessageKind) (ending : Option IoError)
      (rest : Bytes) (cs : List Bytes) (w : Writer) (fuel : ℕ) (c : Connection)
      → Sendable to_vec from_slice messages kinds
      → write_loop to_vec messages fresh_writer ≡ some (w, ok tt)
      → IsLive cs
      → concat cs ≡ w.written ++ rest
      → (left : List Bytes) × (read_loop searches handlers from_slice
            (length messages + fuel)
            (record { chunks = cs; ending = ending })
            c
          ≡ read_loop searches handlers from_slice fuel
              (record { chunks = left; ending = ending })
              (receive_all handlers kinds c))
        × (concat left ≡ rest)
  read_loop-write_loop messages kinds ending rest cs w fuel c s wrote live h =
      let (bytes, f) = stream_of messages kinds s in
      let (w', wrote', grown) = f.adds fresh_writer refl in
      let same : w.written ≡ bytes = cc (wrote, wrote', grown) in
      f.reads ending rest cs fuel c live (h ∙ ap (λ (b : Bytes). b ++ rest) same)

module _ (to_vec : RawMessage → Result Bytes) where
  write_loop-frames :
      (messages : List RawMessage) (bodies : List Bytes) (w : Writer)
      → Encoded to_vec messages bodies
      → w.outcomes ≡ []
      → (w' : Writer) × (bytes : Bytes) × (write_loop to_vec messages w ≡ some (w', ok tt))
        × (w'.written ≡ w.written ++ bytes)
        × AreFrames bodies bytes
  unfolding Encoded write_loop
  write_loop-frames [] [] w s h = (w, [], refl, sym (append-nil w.written), refl)
  write_loop-frames [] (body ∷ bodies) w s h = absurd s
  write_loop-frames (m ∷ messages) [] w s h = absurd s
  write_loop-frames (m ∷ messages) (body ∷ bodies) w (encoded, small, s) h =
      let (first, f) = frame_of body small in
      let (w1, run1, grown1, clean1) = f.adds w h in
      let (w2, others, run2, grown2, frames) = write_loop-frames messages bodies w1 s clean1 in
      (
        w2,
        first ++ others,
        rw (encoded, write_loop) (rw (run1, write_loop) run2),
        grown2 ∙ ap (λ (b : Bytes). b ++ others) grown1 ∙ append_assoc w.written first others,
        (first, others, refl, f.is_frame, frames),
      )

  -- With every call of the writer succeeding, and messages that are encoded within the frame limit: the
  -- writer's loop returns, without an error and without a panic, and what it has written is the frame of
  -- every message's body, in order, and nothing else.
  pub write_loop_total :
      (messages : List RawMessage) (bodies : List Bytes)
      → Encoded to_vec messages bodies
      → (w : Writer) × (write_loop to_vec messages fresh_writer ≡ some (w, ok tt))
        × AreFrames bodies w.written
  write_loop_total messages bodies s =
      let (w, bytes, wrote, grown, frames) =
        write_loop-frames messages bodies fresh_writer s refl in
      (w, wrote, subst (AreFrames bodies) (sym grown) frames)
