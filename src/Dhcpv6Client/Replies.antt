-- ===== src/Dhcpv6Client/Replies.antt =====
-- internal/dhcpv6client/machine.go: what a caller is told.
use minuteman.Base.{
  ℕ, ◌≤◌, ◌≡◌, ◌≢◌, ◌⊎◌, refl, arith, List, [], ◌∷◌, Bool-cases, inl, inr, leb, ltb, ◌==◌, not,
  ◌&&◌, true,
}
use minuteman.Dhcpv6.Options.{Result, ok, err, stuck}
use minuteman.Dhcpv6.Message.{Message, parse_message, answers}
use minuteman.Dhcpv6Client.{
  Generator, Phase, idle, delaying, waiting, Event, call, state_timeout, transmit, retransmit,
  abandoned, received, Effect, Answer, message, exhausted, Data, start, delayed, transmitted,
  retransmitted, judged, abandon, finish, handle_event,
}
use minuteman.Dhcpv6Client.Exhausted.{replies}

module _ (g : Generator) (duid : List ℕ) where
  -- Why a caller is told something: a message off the wire answers its exchange, or the exchange may
  -- send no more and its timeout is over.
  pub data IsCause (d : Data g) : Phase → Event → Answer → Type 0 where
    answered :
        {b : List ℕ} {m : Message}
        → parse_message b ≡ ok m
        → answers d.cur.x m d.cur.xid duid ≡ true
        → IsCause d waiting (received b) (message m)
    spent :
        {ph : Phase}
        → d.cur.x.timing.mrc ≢ 0
        → d.cur.x.timing.mrc ≤ d.cur.sent
        → IsCause d ph (state_timeout retransmit) exhausted

  -- An event leaves nobody told anything, or exactly the caller of the exchange that was running, which
  -- is over then, and for a cause.
  abbrev pub IsTold : Phase → Data g → Event → Phase × Data g × List Effect → Type 0
  IsTold ph d e o =
      (replies o.2 ≡ [])
      ⊎ ((a : Answer) × (replies o.2 ≡ (d.cur.caller, a) ∷ []) × (o.0 ≡ idle) × IsCause d ph e a)

  delayed-silent : (d : Data g) (delay : ℕ) → replies (delayed g duid d delay).2 ≡ []
  unfolding delayed transmitted replies
  delayed-silent d delay = elim (Bool-cases (ltb 0 delay)) [ inl e ↦ rw e refl | inr e ↦ rw e refl ]

  retransmitted-IsTold :
      (ph : Phase) (d : Data g) → IsTold ph d (state_timeout retransmit) (retransmitted g duid d)
  unfolding retransmitted
  retransmitted-IsTold ph d =
      elim (Bool-cases (not (d.cur.x.timing.mrc == 0) && leb d.cur.x.timing.mrc d.cur.sent)) [
        | inl e ↦ rw e (
            unfold finish replies in
            inr (exhausted, refl, refl, spent (ground (arith, e)) (ground (arith, e))))
        | inr e ↦ rw e (unfold transmitted replies in inl refl)
      ]

  judged-IsTold :
      (d : Data g) (b : List ℕ) (r : Result Message)
      → parse_message b ≡ r
      → IsTold waiting d (received b) (judged g duid d r)
  unfolding judged replies finish
  judged-IsTold d b (ok m) p = elim (Bool-cases (answers d.cur.x m d.cur.xid duid)) [
    | inl e ↦ rw e (inr (message m, refl, refl, answered p e))
    | inr e ↦ rw e (inl refl)
  ]
  judged-IsTold d b (err x) p = inl refl
  judged-IsTold d b stuck p = inl refl

  abandon-silent :
      (ph : Phase) (d : Data g) (caller : ℕ) → replies (abandon g duid ph d caller).2 ≡ []
  unfolding abandon replies
  abandon-silent ph d caller = elim (Bool-cases (caller == d.cur.caller)) [
    | inl e ↦ rw e refl
    | inr e ↦ rw e refl
  ]

  -- Whatever happens to the client, nobody is told anything, or exactly the caller of the running
  -- exchange is, which is then over: of a message off the wire that answers the exchange, or that the
  -- exchange is exhausted, when it has sent as often as it may.
  pub handle_event-IsTold :
      (ph : Phase) (d : Data g) (e : Event) → IsTold ph d e (handle_event g duid ph d e)
  unfolding handle_event
  handle_event-IsTold idle d (call x caller) = inl (unfold start in delayed-silent _ _)
  handle_event-IsTold ph d (state_timeout transmit) = inl (unfold transmitted replies in refl)
  handle_event-IsTold ph d (state_timeout retransmit) = retransmitted-IsTold ph d
  handle_event-IsTold delaying d (abandoned caller) = inl (abandon-silent delaying d caller)
  handle_event-IsTold waiting d (abandoned caller) = inl (abandon-silent waiting d caller)
  handle_event-IsTold waiting d (received b) = judged-IsTold d b (parse_message b) refl
  handle_event-IsTold ph d e = inl (unfold replies in refl)
