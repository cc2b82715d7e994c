-- ===== src/Network/Tests.antt =====
-- src/network.cpp: the internal service is requested and shut down.
use libslirc_old.Prelude.{refl, true, false}
use libslirc_old.Network.{external_service, get_service, set_service, begin_shutdown, join_thread}
use libslirc_old.Network.Lifetime.{System, requests, sets, shuts_down, joins, Reach, here, next}

abbrev running : System
running = record {
  network = record {
    service_thread = true;
    current_service = external_service 7;
    internal_service_work = true;
    internal_service_stopping = false;
  };
  threads_started = 1;
}

running-Reach : Reach running
unfolding get_service set_service
running-Reach = next (next (next here (requests _)) (requests _)) (sets _ (external_service 7))

ended-Reach : Reach (record running {
  network = record (running.network) {
    service_thread = false;
    internal_service_work = false;
    internal_service_stopping = true;
  };
})
unfolding begin_shutdown join_thread
ended-Reach = next (next running-Reach (shuts_down _)) (joins _ refl refl)
