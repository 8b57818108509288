-- ===== src/Rpc/Connection/Loops/Ends.antt =====
-- How a connection ends: every request that waits is answered, and no other is taken.
use corsa_bind.Common.{
  ℕ, zero, suc, ◌<◌, nat_eq, true, false, Option, some, List, [], ◌∷◌, String, Bytes, length,
  lookup, elem, if◌then◌else◌, ◌≡◌, refl, ◌∙◌, arith, inl, inr,
}
use corsa_bind.Core.Error.{
  CorsaError, clone_for_pending, closed, Result, ok, err, >>=-eq-ok, Result-cases,
}
use corsa_bind.Core.Value.{Value}
use corsa_bind.Core.Wire.{RequestId, id_eq, RawMessage}
use corsa_bind.Io.Stream.{Reader, unread}
use corsa_bind.Rpc.Connection.{Connection, Handlers, begin_request, fail_all, fail_transport}
use corsa_bind.Rpc.Connection.Branches.{begin_request_closed}
use corsa_bind.Rpc.Connection.Channels.{waiting, lookup-waiting}
use corsa_bind.Rpc.Connection.Loops.{receive, read_message, read_loop}
use corsa_bind.Rpc.Connection.Steps.{Steps, receive-Steps, fail_transport-Steps, Steps-trans}
use corsa_bind.Rpc.Frame.{read_frame}
use corsa_bind.Rpc.Frame.Header.{Search}
use corsa_bind.Rpc.Frame.Progress.{read_frame-lt}
use corsa_bind.Rpc.Message.{MessageKind, into_kind}

lookup-fail_all :
    (e : CorsaError) (k : ℕ) (p : List (RequestId × ℕ)) (a : List (ℕ × Result Value))
    → lookup k (fail_all e p a)
      ≡ (if elem k (waiting p) then some (err (clone_for_pending e)) else lookup k a)
unfolding fail_all
lookup-fail_all e k [] a = refl
lookup-fail_all e k ((id, channel) ∷ p) a =
    ground (arith, lookup-fail_all e k p ((channel, err (clone_for_pending e)) ∷ a))

-- What holds of a connection that has failed: it is closed, no request waits, no message can be
-- sent, and a new request is refused and changes nothing.
pub record IsDown (c : Connection) : Type 0 where
  pub is_closed : c.closed ≡ true
  pub none_waits : c.pending ≡ []
  pub no_sender : c.has_sender ≡ false
  pub refuses :
      (method : String) (params : Option Value)
      → begin_request method params c ≡ (c, err (closed "jsonrpc connection"))

fail_transport-IsDown : (e : CorsaError) (c : Connection) → IsDown (fail_transport e c)
unfolding fail_transport
fail_transport-IsDown e c = record {
  is_closed = refl;
  none_waits = refl;
  no_sender = refl;
  refuses = λ method params. begin_request_closed method params _ refl;
}

-- A transport that fails gives the request that waits under `id` the error, in the form that is
-- cloned for requests; no request waits afterwards, and none is taken.
pub fail_transport-answers :
    (e : CorsaError) (id : RequestId) (channel : ℕ) (c : Connection)
    → lookup id c.pending ≡ some channel
    → (lookup channel (fail_transport e c).answers ≡ some (err (clone_for_pending e)))
      × IsDown (fail_transport e c)
unfolding fail_transport
fail_transport-answers e id channel c h = (
  lookup-fail_all e channel c.pending c.answers
      ∙ ground (arith, lookup-waiting id channel c.pending h),
  fail_transport-IsDown e c,
)

module _ (searches : Search) (handlers : Handlers) (from_slice : Bytes → Result RawMessage) where
  read_message-lt :
      (r r' : Reader) (kind : MessageKind)
      → read_message searches handlers from_slice r ≡ ok (kind, r')
      → length (unread r') < length (unread r)
  unfolding read_message
  read_message-lt r r' kind h =
      let ((body, after), p, q) = >>=-eq-ok (read_frame searches r) _ h in
      let (m, s, t) = >>=-eq-ok (from_slice body) _ q in
      let (k, u, v) = >>=-eq-ok (into_kind m) _ t in
      let same : after ≡ r' = cc in rw (← same) (read_frame-lt searches r after body p)

  pub read_loop-next :
      (fuel : ℕ) (r after : Reader) (c : Connection) (kind : MessageKind)
      → read_message searches handlers from_slice r ≡ ok (kind, after)
      → read_loop searches handlers from_slice (suc fuel) r c
        ≡ read_loop searches handlers from_slice fuel after (receive handlers kind c)
  unfolding read_loop
  read_loop-next fuel r after c kind h = rw (h, read_loop) refl

  read_loop-failed :
      (fuel : ℕ) (r : Reader) (c : Connection) (e : CorsaError)
      → read_message searches handlers from_slice r ≡ err e
      → read_loop searches handlers from_slice (suc fuel) r c ≡ some (fail_transport e c)
  unfolding read_loop
  read_loop-failed fuel r c e h = rw (h, read_loop) refl

  -- The reader's loop ends, with fuel for each byte of its stream and one more: whatever the stream
  -- holds, the connection that it leaves is down, and was reached by steps of the step relation.
  pub read_loop-IsDown :
      (fuel : ℕ) (r : Reader) (c : Connection)
      → length (unread r) < fuel
      → (d : Connection) × (read_loop searches handlers from_slice fuel r c ≡ some d)
        × Steps c d
        × IsDown d
  read_loop-IsDown zero r c lt = absurd (omega arith)
  read_loop-IsDown (suc fuel) r c lt =
      elim (Result-cases (read_message searches handlers from_slice r)) [
        | inr (e, f) ↦ (
          fail_transport e c,
          read_loop-failed fuel r c e f,
          fail_transport-Steps e c,
          fail_transport-IsDown e c,
        )
        | inl ((kind, after), f) ↦
            let less = read_message-lt r after kind f in
            let (d, run, steps, down) =
              read_loop-IsDown fuel after (receive handlers kind c) (omega arith) in
            (
              d,
              read_loop-next fuel r after c kind f ∙ run,
              Steps-trans (receive-Steps handlers c kind) steps,
              down,
            )
      ]
