-- ===== src/Dhcpv6Client/Examples.antt =====
-- internal/dhcpv6client: a Request that nobody answers, from a generator whose draws are all alike.
use minuteman.Base.{ℕ, ◌+◌, ◌^◌, refl, arith, List, [], ◌∷◌}
use minuteman.Dhcpv6.Retransmit.{request}
use minuteman.Dhcpv6Client.{
  Generator, Data, no_exchange, idle, waiting, call, state_timeout, retransmit, handle_event,
}
use minuteman.Dhcpv6Client.Valid.{IsValid, handle_event-IsValid}
use minuteman.Dhcpv6Client.Exhausted.{GivesUp, in_silence, follow, call-exhausted}
use minuteman.Dhcpv6Client.Replies.{IsTold, handle_event-IsTold}

-- Its state counts the draws.
abbrev counting : Generator
counting = record {
  State = ℕ;
  transaction_id = λ s. (1 ∷ 2 ∷ 3 ∷ [], s + 1);
  float = λ s. (2 ^ 51, s + 1);
}

abbrev fresh : Data counting
fresh = record { rng = 0; cur = no_exchange }

abbrev duid : List ℕ
duid = 0 ∷ 3 ∷ []

handle_event-IsValid_example :
    IsValid
      (handle_event counting duid idle fresh (call (request []) 7)).0
      (handle_event counting duid idle fresh (call (request []) 7)).1.cur
handle_event-IsValid_example =
    handle_event-IsValid counting duid (λ s. omega arith) idle fresh (call (request []) 7) refl tt

call-exhausted_example : GivesUp counting duid 7 10 (
    follow counting duid
      (in_silence counting duid 11)
      (handle_event counting duid idle fresh (call (request []) 7)))
unfolding request
call-exhausted_example = call-exhausted counting duid fresh (request []) 7 9 refl

abbrev spent : Data counting
spent = record { rng = 0; cur = record no_exchange { caller = 7; x = request []; sent = 10 } }

handle_event-IsTold_example :
    IsTold counting duid waiting spent
      (state_timeout retransmit)
      (handle_event counting duid waiting spent (state_timeout retransmit))
handle_event-IsTold_example =
    handle_event-IsTold counting duid waiting spent (state_timeout retransmit)
