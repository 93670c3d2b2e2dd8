-- ===== src/Softwire/Server/Examples.antt =====
-- internal/softwirectl/softwire.go: a migration asked for, cut over and cut short.
use minuteman.Base.{ℕ, ◌+◌, ◌≡◌, refl, arith, List, [], ◌∷◌, some, none, false, ◌==◌}
use minuteman.Base.Maps.{empty, insert}
use minuteman.Netip.{v6}
use minuteman.Datapath.{Endpoints, slot_key, ok, unpack}
use minuteman.Datapath.Triples.{ctrl}
use minuteman.Datapath.Phases.{steady, At}
use minuteman.Softwire.Server.{Machine, Outside, Request, recover, begin, cutover_now, gc, serve}
use minuteman.Softwire.Server.Carried.{IsCarried, serve-active}

abbrev first_pair : Endpoints
first_pair = record { b4 = v6 1; aftr = v6 2 }

abbrev second_pair : Endpoints
second_pair = record { b4 = v6 1; aftr = v6 3 }

-- A kernel whose twentieth call fails, and a tunnel that only counts its updates.
abbrev outside : Outside ℕ
outside = record {
  fails = λ n. n == 19;
  set_endpoints = λ e t. t + 1;
  source_for_dest = λ a. none;
  stats = λ s. ok (record { affinity_insert = 0; affinity_insert_fail = 0 });
  clock = 9;
}

abbrev running : Machine ℕ
running = record {
  active = first_pair;
  target = first_pair;
  migrating = false;
  dp = record {
    migration_ctrl = 257;
    next_hops = insert 1 first_pair empty;
    tunnel_pmtus = empty;
    flow_affinity = [];
    calls = 0;
  };
  tun = 0;
}

running-At : At running.dp (steady first_pair)
running-At = unfold unpack in record { slot_fits = omega arith; holds = (refl, ground arith) }

running-IsCarried : IsCarried running
running-IsCarried = record { phase = steady first_pair; at = running-At; notes = refl }

abbrev requests : List Request
requests = begin second_pair ∷ cutover_now ∷ gc ∷ recover ∷ []

serve-active_example :
    (serve outside requests running).dp.next_hops
      (ctrl (serve outside requests running).dp).active_slot
    ≡ some (serve outside requests running).active
serve-active_example = serve-active outside requests running running-IsCarried
