-- ===== src/Dhcpv6Client/Valid.antt =====
-- internal/dhcpv6client/machine.go: what holds of the client between two events.
use minuteman.Base.{
  ℕ, ◌*◌, ◌≤◌, ◌<◌, ◌≡◌, ◌≢◌, refl, arith, List, Bool-cases, inl, inr, leb, ltb, ◌==◌, not, ◌&&◌,
}
use minuteman.Dhcpv6.Options.{Result, ok, err, stuck}
use minuteman.Dhcpv6.Message.{Message, Exchange, parse_message, answers}
use minuteman.Dhcpv6.Retransmit.Bounds.{IsDraw, first_rt_bounds, next_rt-ge, next_rt-le}
use minuteman.Dhcpv6Client.{
  Generator, Phase, idle, delaying, waiting, Event, call, state_timeout, transmit, retransmit,
  Running, no_exchange, Data, start, transmitted, retransmitted, judged, abandon, abandoned,
  received, finish, handle_event, delayed, again, draw_next_rt,
}

-- Every draw of the generator is a `Float64`.
abbrev pub Draws : Generator → Type 0
Draws g = (s : g.State) → IsDraw (g.float s).0

-- The timeout of an exchange is not below nine tenths of its first one, or of a lower ceiling, and at
-- most a tenth beyond the ceiling, where the first one is not.
pub record IsPaced (c : Running) : Type 0 where
  pub floor : (c.x.timing.mrt ≡ 0 → 9 * c.x.timing.irt ≤ 10 * c.rt)
  pub ceiling :
      c.x.timing.mrt ≢ 0
      → c.x.timing.irt ≤ c.x.timing.mrt
      → (9 * c.x.timing.irt ≤ 10 * c.rt) × (10 * c.rt ≤ 11 * c.x.timing.mrt)

-- An idle client runs no exchange; a delaying one has sent nothing of its exchange, a waiting one at
-- least once and at most as often as it may.
abbrev pub IsValid : Phase → Running → Type 0
IsValid idle c = c ≡ no_exchange
IsValid delaying c = IsPaced c × (c.sent ≡ 0) × (c.elapsed ≡ 0)
IsValid waiting c = IsPaced c × (0 < c.sent) × (c.x.timing.mrc ≢ 0 → c.sent ≤ c.x.timing.mrc)

-- A state timeout comes in the phase that set it.
abbrev pub IsTimely : Phase → Event → Type 0
IsTimely delaying (state_timeout transmit) = Unit {0}
IsTimely waiting (state_timeout retransmit) = Unit {0}
IsTimely ph (state_timeout t) = ⊥
IsTimely ph e = Unit {0}

module _ (g : Generator) (duid : List ℕ) (draws : Draws g) where
  transmitted-IsValid :
      (d : Data g)
      → IsPaced d.cur
      → (d.cur.x.timing.mrc ≢ 0 → d.cur.sent < d.cur.x.timing.mrc)
      → IsValid (transmitted g duid d).0 (transmitted g duid d).1.cur
  unfolding transmitted
  transmitted-IsValid d p h =
      (record { floor = p.floor; ceiling = p.ceiling }, omega arith, λ k. omega (arith, h k))

  delayed-IsValid :
      (d : Data g) (delay : ℕ)
      → IsPaced d.cur
      → d.cur.sent ≡ 0
      → d.cur.elapsed ≡ 0
      → IsValid (delayed g duid d delay).0 (delayed g duid d delay).1.cur
  unfolding delayed
  delayed-IsValid d delay p h e = elim (Bool-cases (ltb 0 delay)) [
    | inl later ↦ rw later (p, h, e)
    | inr now ↦ rw now (transmitted-IsValid d p (λ k. omega arith))
  ]

  start-IsValid :
      (rng : g.State) (x : Exchange) (caller : ℕ)
      → IsValid (start g duid rng x caller).0 (start g duid rng x caller).1.cur
  unfolding start
  start-IsValid rng x caller =
      let r = (g.float (g.transaction_id rng).1).0 in
      let (most, least) = first_rt_bounds x.timing.irt r (draws (g.transaction_id rng).1) in
      delayed-IsValid _ _ (record { floor = λ e. least; ceiling = λ k low. (least, omega arith) })
        refl refl

  -- The two draws of a retransmission.
  again-IsPaced : (d : Data g) → IsPaced d.cur → IsPaced (again g duid d).cur
  unfolding again draw_next_rt
  again-IsPaced d p =
      let first = draws d.rng in
      let second = draws (g.float d.rng).1 in
      let mrt = d.cur.x.timing.mrt in
      let low =
        next_rt-ge d.cur.rt mrt (g.float d.rng).0 (g.float (g.float d.rng).1).0 first second in
      record {
        floor = λ e. ground (arith, low, p.floor e);
        ceiling = λ k h. (ground (arith, low, p.ceiling k h), next_rt-le d.cur.rt mrt _ _ second k);
      }

  retransmitted-IsValid :
      (d : Data g)
      → IsValid waiting d.cur
      → IsValid (retransmitted g duid d).0 (retransmitted g duid d).1.cur
  unfolding retransmitted
  retransmitted-IsValid d v =
      elim (Bool-cases (not (d.cur.x.timing.mrc == 0) && leb d.cur.x.timing.mrc d.cur.sent)) [
        | inl over ↦ rw over (unfold finish in refl)
        | inr more ↦ rw more (
            transmitted-IsValid (again g duid d) (again-IsPaced d v.0)
              (unfold again in λ k. ground (arith, more)))
      ]

  judged-IsValid :
      (d : Data g) (r : Result Message)
      → IsValid waiting d.cur
      → IsValid (judged g duid d r).0 (judged g duid d r).1.cur
  unfolding judged finish
  judged-IsValid d (ok m) v = elim (Bool-cases (answers d.cur.x m d.cur.xid duid)) [
    | inl e ↦ rw e refl
    | inr e ↦ rw e v
  ]
  judged-IsValid d (err x) v = v
  judged-IsValid d stuck v = v

  abandon-IsValid :
      (ph : Phase) (d : Data g) (caller : ℕ)
      → IsValid ph d.cur
      → IsValid (abandon g duid ph d caller).0 (abandon g duid ph d caller).1.cur
  unfolding abandon
  abandon-IsValid ph d caller v = elim (Bool-cases (caller == d.cur.caller)) [
    | inl e ↦ rw e refl
    | inr e ↦ rw e v
  ]

  -- Whatever happens, a valid client stays valid, if state timeouts come in the phase that set them.
  pub handle_event-IsValid :
      (ph : Phase) (d : Data g) (e : Event)
      → IsValid ph d.cur
      → IsTimely ph e
      → IsValid (handle_event g duid ph d e).0 (handle_event g duid ph d e).1.cur
  unfolding handle_event
  handle_event-IsValid idle d (call x caller) v t = start-IsValid d.rng x caller
  handle_event-IsValid delaying d (state_timeout transmit) v t =
      transmitted-IsValid d v.0 (λ k. omega arith)
  handle_event-IsValid waiting d (state_timeout retransmit) v t = retransmitted-IsValid d v
  handle_event-IsValid delaying d (abandoned caller) v t = abandon-IsValid delaying d caller v
  handle_event-IsValid waiting d (abandoned caller) v t = abandon-IsValid waiting d caller v
  handle_event-IsValid waiting d (received b) v t = judged-IsValid d (parse_message b) v
  handle_event-IsValid idle d (state_timeout m) v t = elim t [ ]
  handle_event-IsValid delaying d (state_timeout retransmit) v t = elim t [ ]
  handle_event-IsValid waiting d (state_timeout transmit) v t = elim t [ ]
  handle_event-IsValid ph d e v t = v
