-- ===== src/Samples/ScanRuns/Loops.antt =====
-- A run of the controller: a node arrives, is applied, and a first round finds no images.
use kvisor.Base.{String, pos, some, inr, false, true, ◌≤◌, length, [], ◌∷◌, ◌++◌, ◌≡◌, refl, arith}
use kvisor.Kube.Object.{Object, node, Event, event_add}
use kvisor.ImageScan.Report.{sync_error}
use kvisor.ImageScan.Run.{
  Scans, Loop, new_loop, queue_size, Reach, here, next, receive, handle, initial_delay_over, tick,
  schedule_scans, handle_delta, with_delta, idle,
}
use kvisor.ImageScan.Run.Safety.{IsSafe}
use kvisor.ImageScan.Run.Reached.{Reach-IsSafe}
use kvisor.ImageScan.Run.Order.{received, handled, Reach-in_order}
use mathlib.Core.List.Perm
use kvisor.ImageScan.Run.Sound.{Sound}
use kvisor.ImageScan.Run.Known.{knows, last_there}
use kvisor.Samples.JobRuns.{settings}
use kvisor.Samples.{web_node}
use kvisor.Samples.ScanRuns.{steady, config}
use kvisor.Samples.ScanRuns.Sorting.{sorted, sorted-perm, sorted-Ordered}

abbrev arrival : Event × Object
arrival = (event_add, node web_node)

abbrev queued : Loop
queued = record new_loop { queue = arrival ∷ [] }

abbrev applied : Loop
applied = record queued {
  controller =
      with_delta queued.controller (handle_delta (λ p. p.uid) queued.controller.delta 5 arrival);
  queue = [];
}

abbrev ready : Loop
ready = record applied { phase = idle }

abbrev scans : Scans
scans = record {
  sort_nodes = λ less xs. xs;
  must_parse = λ text. some (pos 1);
  fnv_hex = λ name. name;
  scanner = settings;
}

scans-Sound : Sound config scans
scans-Sound = record {
  interval = (14999999999, refl);
  limit = (3, refl);
  memory = (pos 50, refl);
  cpu = (pos 1, refl);
  quantities = record {
    cpu_request = inr (pos 1, refl);
    cpu_limit = inr (pos 1, refl);
    memory_request = inr (pos 1, refl);
    memory_limit = inr (pos 1, refl);
  };
  nodes_perm = λ less xs. Perm.refl xs;
}

abbrev web_run :
    Reach sorted config steady scans new_loop
      (schedule_scans sorted config steady ready (10, (10, 10)) sync_error true)
web_run =
    next
      (next
        (next (next here (receive new_loop arrival (omega arith)))
          (handle queued (λ p. p.uid) 5 arrival [] refl refl))
        (initial_delay_over applied refl))
      (tick ready (10, (10, 10)) sync_error true refl)

Reach-IsSafe_example :
    IsSafe config (schedule_scans sorted config steady ready (10, (10, 10)) sync_error true)
Reach-IsSafe_example =
    Reach-IsSafe sorted sorted-perm sorted-Ordered config steady scans scans-Sound web_run

Reach-in_order_example :
    let s = schedule_scans sorted config steady ready (10, (10, 10)) sync_error true in
    (received sorted config steady scans web_run
      ≡ handled sorted config steady scans web_run ++ s.queue)
    × (length s.queue ≤ queue_size)
    × ((name : String)
        → knows s.controller.delta name
          ≡ last_there name false (handled sorted config steady scans web_run))
Reach-in_order_example = Reach-in_order sorted config steady scans web_run
