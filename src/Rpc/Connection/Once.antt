-- ===== src/Rpc/Connection/Once.antt =====
-- No reply channel gets a second answer, whatever the threads do.
use corsa_bind.Common.{
  ℕ, ◌+◌, ◌<◌, true, false, Option, some, List, [], ◌∷◌, nat_eq, lookup, insert, remove, elem,
  IsDistinct, ◌≡◌, inl, inr, refl, arith, Bool-cases, Option-cases,
}
use corsa_bind.Core.Error.{CorsaError, clone_for_pending, Result, err}
use corsa_bind.Core.Value.{Value}
use corsa_bind.Core.Wire.{RequestId, id_eq, RpcResponseError, RawMessage}
use corsa_bind.Rpc.Connection.{
  Connection, spawn, register, send_outbound, unregister, fail_all, fail_pending,
}
use corsa_bind.Rpc.Connection.Branches.{receive_response_known, receive_response_unknown}
use corsa_bind.Rpc.Connection.Loops.{receive_response, reply_of}
use corsa_bind.Rpc.Connection.Channels.{
  waiting, replied, waiting-insert, waiting-remove, IsDistinct-insert, IsDistinct-remove,
  lookup-waiting, remove-waiting,
}
use corsa_bind.Rpc.Connection.Steps.{
  Step, Steps, registers, sends, unregisters, replies, publishes, subscribes, closes, drops_sender,
  drains, takes, ends_writer, stay, next,
}

-- Of the channels made so far, none waits twice, none has two answers, and none that has an answer
-- waits.
pub record Once (pending : List (RequestId × ℕ)) (answers : List (ℕ × Result Value)) (made : ℕ)
    : Type 0 where
  pub waiting_distinct : IsDistinct (waiting pending)
  pub replied_distinct : IsDistinct (replied answers)
  pub apart : (k : ℕ) → elem k (waiting pending) ≡ true → elem k (replied answers) ≡ false
  pub waiting_made : (k : ℕ) → elem k (waiting pending) ≡ true → k < made
  pub replied_made : (k : ℕ) → elem k (replied answers) ≡ true → k < made

module _ (p : List (RequestId × ℕ)) (a : List (ℕ × Result Value)) (n : ℕ) (h : Once p a n) where
  fresh_waiting : elem n (waiting p) ≡ false
  fresh_waiting = elim (Bool-cases (elem n (waiting p))) [
    | inl t ↦ absurd (omega (arith, h.waiting_made n t))
    | inr f ↦ f
  ]

  fresh_replied : elem n (replied a) ≡ false
  fresh_replied = elim (Bool-cases (elem n (replied a))) [
    | inl t ↦ absurd (omega (arith, h.replied_made n t))
    | inr f ↦ f
  ]

  Once-register : (id : RequestId) → Once (insert id n p) a (n + 1)
  Once-register id = record {
    waiting_distinct = IsDistinct-insert id n p h.waiting_distinct fresh_waiting;
    replied_distinct = h.replied_distinct;
    apart = λ k e. elim (waiting-insert k id n p e) [
      | inl q ↦ rw q fresh_replied
      | inr w ↦ h.apart k w
    ];
    waiting_made = λ k e. elim (waiting-insert k id n p e) [
      | inl q ↦ omega arith
      | inr w ↦ omega (arith, h.waiting_made k w)
    ];
    replied_made = λ k e. omega (arith, h.replied_made k e);
  }

  Once-unregister : (id : RequestId) → Once (remove id p) a n
  Once-unregister id = record {
    waiting_distinct = IsDistinct-remove id p h.waiting_distinct;
    replied_distinct = h.replied_distinct;
    apart = λ k e. h.apart k (waiting-remove k id p e);
    waiting_made = λ k e. h.waiting_made k (waiting-remove k id p e);
    replied_made = h.replied_made;
  }

  Once-reply :
      (id : RequestId) (channel : ℕ) (r : Result Value)
      → lookup id p ≡ some channel
      → Once (remove id p) ((channel, r) ∷ a) n
  Once-reply id channel r l =
      let w = lookup-waiting id channel p l in
      let gone = remove-waiting id channel p h.waiting_distinct l in
      record {
        waiting_distinct = IsDistinct-remove id p h.waiting_distinct;
        replied_distinct = (h.apart channel w, h.replied_distinct);
        apart = λ k e.
            ground (arith, h.apart k (waiting-remove k id p e), nat_eq.beq_iff channel k, gone, e);
        waiting_made = λ k e. h.waiting_made k (waiting-remove k id p e);
        replied_made = λ k e.
            ground (arith, h.replied_made k, nat_eq.beq_iff channel k, h.waiting_made channel w);
      }

Once-fail_all :
    (error : CorsaError) (p : List (RequestId × ℕ)) (a : List (ℕ × Result Value)) (n : ℕ)
    → Once p a n
    → Once [] (fail_all error p a) n
unfolding fail_all
Once-fail_all error [] a n h = h
Once-fail_all error ((id, channel) ∷ p) a n h =
    Once-fail_all error p ((channel, err (clone_for_pending error)) ∷ a) n (record {
      waiting_distinct = h.waiting_distinct.1;
      replied_distinct = (
        h.apart channel (ground (arith, (nat_eq.beq_iff channel channel).1 refl)),
        h.replied_distinct,
      );
      apart = λ k e. ground (arith, h.apart k, nat_eq.beq_iff channel k, h.waiting_distinct.0, e);
      waiting_made = λ k e. h.waiting_made k (ground (arith, e));
      replied_made = λ k e. ground (
        arith,
        h.replied_made k,
        nat_eq.beq_iff channel k,
        h.waiting_made channel,
        (nat_eq.beq_iff channel channel).1 refl,
      );
    })

abbrev pub AnswersOnce : Connection → Type 0
AnswersOnce c = Once c.pending c.answers c.channels

receive_response-Once :
    (id : RequestId) (result : Option Value) (error : Option RpcResponseError) (c : Connection)
    → AnswersOnce c
    → AnswersOnce (receive_response id result error c)
receive_response-Once id result error c h = elim (Option-cases (lookup id c.pending)) [
  | inl e ↦ rw (receive_response_unknown id result error c e) h
  | inr (channel, e) ↦
      rw (receive_response_known id result error c channel e)
        (Once-reply c.pending c.answers c.channels h id channel (reply_of result error) e)
]

send_outbound-same :
    (m : RawMessage) (c : Connection)
    → ((send_outbound m c).0.pending ≡ c.pending)
      × ((send_outbound m c).0.answers ≡ c.answers)
      × ((send_outbound m c).0.channels ≡ c.channels)
unfolding send_outbound
send_outbound-same m c = ground arith

Step-Once : {c d : Connection} → Step c d → AnswersOnce c → AnswersOnce d
unfolding register unregister fail_pending
Step-Once (registers c) h = Once-register c.pending c.answers c.channels h _
Step-Once (sends m c) h = let (a, b, e) = send_outbound-same m c in rw (a, b, e) h
Step-Once (unregisters id c) h = Once-unregister c.pending c.answers c.channels h id
Step-Once (replies id result error c) h = receive_response-Once id result error c h
Step-Once (publishes e c) h = h
Step-Once (subscribes c) h = h
Step-Once (closes c) h = h
Step-Once (drops_sender c) h = h
Step-Once (drains e c) h = Once-fail_all e c.pending c.answers c.channels h
Step-Once (takes m rest c q) h = h
Step-Once (ends_writer c) h = h

Steps-Once : {c d : Connection} → AnswersOnce c → Steps c d → AnswersOnce d
Steps-Once h stay = h
Steps-Once h (next r s) = Step-Once s (Steps-Once h r)

-- In every state that a new connection reaches, by whatever steps of its callers and its two
-- threads in whatever order, no reply channel has two answers, none that has its answer waits for
-- another, and none waits for two requests.
pub spawn-AnswersOnce : (capacity : ℕ) (d : Connection) → Steps (spawn capacity) d → AnswersOnce d
spawn-AnswersOnce capacity d = Steps-Once (record {
  waiting_distinct = tt;
  replied_distinct = tt;
  apart = λ k e. absurd (cc);
  waiting_made = λ k e. absurd (cc);
  replied_made = λ k e. absurd (cc);
})
