-- ===== src/Dhcpv6Client/Exhausted.antt =====
-- internal/dhcpv6client/machine.go: an exchange that nobody answers is given up.
use minuteman.Base.{
  ℕ, zero, suc, ◌+◌, ◌<◌, ◌≡◌, refl, sym, subst, ap, arith, List, [], ◌∷◌, ◌++◌, Bool-cases, inl,
  inr, leb, ltb, ◌==◌, not, ◌&&◌, Option, none, some,
}
use minuteman.Dhcpv6.Message.{Exchange}
use minuteman.Dhcpv6Client.{
  Generator, Phase, idle, delaying, waiting, Event, call, state_timeout, transmit, retransmit,
  Effect, start_timeout, no_exchange, Answer, exhausted, reply, send, Data, start, delayed,
  transmitted, again, retransmitted, finish, handle_event,
}

-- The timeout that a phase has set.
abbrev pub due : Phase → Option Event
due idle = none
due delaying = some (state_timeout transmit)
due waiting = some (state_timeout retransmit)

unfoldable pub replies : List Effect → List (ℕ × Answer)
replies [] = []
replies (reply caller a ∷ es) = (caller, a) ∷ replies es
replies (e ∷ es) = replies es

pub sends : List Effect → ℕ
sends [] = 0
sends (send b ∷ es) = suc (sends es)
sends (e ∷ es) = sends es

replies-append : (xs ys : List Effect) → replies (xs ++ ys) ≡ replies xs ++ replies ys
unfolding replies
replies-append [] ys = refl
replies-append (reply caller a ∷ es) ys = ap (λ t. (caller, a) ∷ t) (replies-append es ys)
replies-append (e ∷ es) ys = replies-append es ys

sends-append : (xs ys : List Effect) → sends (xs ++ ys) ≡ sends xs + sends ys
unfolding sends
sends-append [] ys = omega arith
sends-append (send b ∷ es) ys = omega (arith, sends-append es ys)
sends-append (e ∷ es) ys = sends-append es ys

module _ (g : Generator) (duid : List ℕ) where
  -- What follows a step, with the effects of both.
  abbrev pub follow :
      (Phase → Data g → Phase × Data g × List Effect)
      → Phase × Data g × List Effect
      → Phase × Data g × List Effect
  follow rest (ph, d, effs) = let (ph', d', later) = rest ph d in (ph', d', effs ++ later)

  -- Nothing happens but the timeouts, at most `n` of them; the effects are collected.
  pub in_silence : ℕ → Phase → Data g → Phase × Data g × List Effect
  in_silence zero ph d = (ph, d, [])
  in_silence (suc n) ph d = elim (due ph) [
    | none ↦ (ph, d, [])
    | some e ↦ follow (in_silence n) (handle_event g duid ph d e)
  ]

  pub record GivesUp (caller k : ℕ) (o : Phase × Data g × List Effect) : Type 0 where
    pub idle_again : o.0 ≡ idle
    pub told : replies o.2 ≡ (caller, exhausted) ∷ []
    pub times : sends o.2 ≡ k

  in_silence-idle : (n : ℕ) (d : Data g) → in_silence n idle d ≡ (idle, d, [])
  unfolding in_silence
  in_silence-idle zero d = refl
  in_silence-idle (suc n) d = refl

  -- The timeout of an exchange that may send no more, and of one that may.
  timeout_over :
      (d : Data g)
      → 0 < d.cur.sent
      → d.cur.sent ≡ d.cur.x.timing.mrc
      → handle_event g duid waiting d (state_timeout retransmit) ≡ finish g duid d exhausted
  unfolding handle_event retransmitted
  timeout_over d p e =
      elim (Bool-cases (not (d.cur.x.timing.mrc == 0) && leb d.cur.x.timing.mrc d.cur.sent)) [
        | inl over ↦ rw over refl
        | inr more ↦ absurd (ground (arith, more))
      ]

  timeout_more :
      (d : Data g)
      → d.cur.sent < d.cur.x.timing.mrc
      → handle_event g duid waiting d (state_timeout retransmit)
        ≡ transmitted g duid (again g duid d)
  unfolding handle_event retransmitted
  timeout_more d p =
      elim (Bool-cases (not (d.cur.x.timing.mrc == 0) && leb d.cur.x.timing.mrc d.cur.sent)) [
        | inl over ↦ absurd (ground (arith, over))
        | inr more ↦ rw more refl
      ]

  -- A transmission, and what is known of the silence after it.
  transmitted-GivesUp :
      (k n : ℕ) (d : Data g)
      → GivesUp d.cur.caller k (in_silence n waiting (transmitted g duid d).1)
      → GivesUp d.cur.caller (suc k) (follow (in_silence n) (transmitted g duid d))
  unfolding transmitted sends replies
  transmitted-GivesUp k n d v = record {
    idle_again = v.idle_again;
    told = v.told;
    times = ap suc v.times;
  }

  waiting-GivesUp :
      (k n : ℕ) (d : Data g)
      → d.cur.sent + k ≡ d.cur.x.timing.mrc
      → 0 < d.cur.sent
      → k < n
      → GivesUp d.cur.caller k (in_silence n waiting d)
  unfolding in_silence transmitted again
  waiting-GivesUp zero (suc n) d e p h = rw (timeout_over d p (omega arith)) (
      unfold finish in
      rw (in_silence-idle n (record d { cur = no_exchange }))
        (unfold replies sends in (record { idle_again = refl; told = refl; times = refl })))
  waiting-GivesUp (suc k) (suc n) d e p h =
      let d' = (transmitted g duid (again g duid d)).1 in
      let ih = waiting-GivesUp k n d' (omega arith) (omega arith) (omega arith) in
      rw (timeout_more d (omega arith)) (transmitted-GivesUp k n (again g duid d) ih)
  waiting-GivesUp k zero d e p h = absurd (omega arith)

  -- The first transmission of an exchange.
  first-GivesUp :
      (k n : ℕ) (d : Data g)
      → d.cur.sent ≡ 0
      → d.cur.x.timing.mrc ≡ suc k
      → k < n
      → GivesUp d.cur.caller (suc k) (follow (in_silence n) (transmitted g duid d))
  unfolding transmitted
  first-GivesUp k n d e m h =
      transmitted-GivesUp k n d
        (waiting-GivesUp k n (transmitted g duid d).1 (omega arith) (omega arith) h)

  after_delay :
      (k n delay : ℕ) (d : Data g)
      → GivesUp d.cur.caller (suc k) (follow (in_silence n) (transmitted g duid d))
      → GivesUp d.cur.caller
          (suc k)
          (follow (in_silence (suc n)) (delaying, d, start_timeout delay transmit ∷ []))
  unfolding in_silence handle_event replies sends
  after_delay k n delay d v = record { idle_again = v.idle_again; told = v.told; times = v.times }

  started-GivesUp :
      (k n delay : ℕ) (d : Data g)
      → d.cur.sent ≡ 0
      → d.cur.x.timing.mrc ≡ suc k
      → k < n
      → GivesUp d.cur.caller (suc k) (follow (in_silence (suc n)) (delayed g duid d delay))
  unfolding delayed
  started-GivesUp k n delay d e m h = elim (Bool-cases (ltb 0 delay)) [
    | inl later ↦ rw later (after_delay k n delay d (first-GivesUp k n d e m h))
    | inr now ↦ rw now (first-GivesUp k (suc n) d e m (omega arith))
  ]

  -- An exchange with a maximum transmission count that nobody answers: after the call and that many
  -- timeouts, and one more for a delay, the client is idle, has told the caller that the exchange is
  -- exhausted, and nothing else, and has transmitted exactly that many times.
  pub call-exhausted :
      (d : Data g) (x : Exchange) (caller k : ℕ)
      → x.timing.mrc ≡ suc k
      → GivesUp caller x.timing.mrc
          (follow (in_silence (suc x.timing.mrc)) (handle_event g duid idle d (call x caller)))
  unfolding handle_event start
  call-exhausted d x caller k m =
      subst (λ n. GivesUp caller n (follow (in_silence (suc n)) (start g duid d.rng x caller)))
        (sym m) (started-GivesUp k (suc k) _ _ refl m (omega arith))
