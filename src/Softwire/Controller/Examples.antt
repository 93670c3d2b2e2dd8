-- ===== src/Softwire/Controller/Examples.antt =====
-- internal/softwirectl/controller.go: a controller that drains an AFTR.
use minuteman.Base.{◌+◌, ◌^◌, ◌<◌, ◌≡◌, refl, ◌⊎◌, [], true, false}
use minuteman.Netip.{v6, invalid}
use minuteman.Softwire.Events.{
  Controller, Data, Discovery, Event, steady, draining, responded, on_complete, ok,
}
use minuteman.Softwire.Controller.{handle_event, response}
use minuteman.Softwire.Controller.Confirmed.{confirmed_by, endpoints, handle_event-confirmed_by}
use minuteman.Softwire.Controller.Paced.{Landed, handle_event-paced}

abbrev old_aftr : Discovery
old_aftr = record { aftr = v6 2; dns_servers = []; refresh = 0; hb46pp_token = [] }

abbrev new_aftr : Discovery
new_aftr = record { aftr = v6 3; dns_servers = []; refresh = 0; hb46pp_token = [] }

abbrev controller : Controller
controller = record { dynamic_aftr = true; dynamic_b4 = true; initial = old_aftr }

abbrev moving : Data
moving = record {
  current = old_aftr;
  b4 = v6 (2 ^ 125 + 1);
  wait = 0;
  gen = 4;
  next = new_aftr;
  migration = 1;
  baseline = record { affinity_insert = 0; affinity_insert_fail = 0 };
  recorded = 9;
  cap_reached = false;
  abort_why = [];
  switch_b4 = invalid;
  switch_to = old_aftr;
}

abbrev completion : Event
completion = responded 4 (on_complete (ok tt))

handle_event-confirmed_by_example :
    endpoints (handle_event controller draining moving completion).1
    ≡ confirmed_by moving completion
handle_event-confirmed_by_example = handle_event-confirmed_by controller draining moving completion

completed : (handle_event controller draining moving completion).0 ≡ steady
unfolding handle_event response
completed = refl

handle_event-paced_example :
    (0 < (handle_event controller draining moving completion).1.wait) ⊎ Landed moving completion
handle_event-paced_example =
    handle_event-paced controller draining moving completion (λ h. cc) completed
