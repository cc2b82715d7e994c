-- ===== src/Network/Lifetime.antt =====
-- src/network.cpp: the service from the start of the program to its end, with calls in any order.
use libslirc_old.Prelude.{
  ℕ, ◌+◌, ◌≤◌, ◌≡◌, refl, Bool, true, false, not, ◌&&◌, if◌then◌else◌, arith, ok, throw,
  logic_error, Exception,
}
use libslirc_old.Network.{
  Service, internal_service, external_service, NetworkService, new_network_service, get_service,
  set_service, uses_internal_service, begin_shutdown, join_thread,
}

-- The number of threads that were started is the history of the system.
pub record System : Type 0 where
  pub network : NetworkService
  pub threads_started : ℕ

abbrev pub initial : System
initial = record { network = new_network_service; threads_started = 0 }

-- One more if the thread is there after a call and was not before.
abbrev pub started : Bool → Bool → ℕ → ℕ
started before after count = if not before && after then count + 1 else count

pub data Step : System → System → Type 0 where
  requests :
      (s : System)
      → Step s (
          let (service, n) = get_service s.network in
          record s {
            network = n;
            threads_started = started s.network.service_thread n.service_thread s.threads_started;
          })
  sets :
      (s : System) (service : Service)
      → Step s (record s { network = set_service service s.network })
  shuts_down : (s : System) → Step s (record s { network = begin_shutdown s.network })
  -- The thread ends only when the internal service has no work object.
  joins :
      (s : System)
      → s.network.internal_service_stopping ≡ true
      → s.network.internal_service_work ≡ false
      → Step s (record s { network = join_thread s.network })

pub data Reach : System → Type 0 where
  here : Reach initial
  next : {s t : System} → Reach s → Step s t → Reach t

pub record IsValid (s : System) : Type 0 where
  pub once : s.threads_started ≤ 1
  pub running :
      s.network.internal_service_stopping ≡ false
      → (s.network.internal_service_work ≡ s.network.service_thread)
        × (s.threads_started ≡ (if s.network.service_thread then 1 else 0))
  pub stopped : s.network.internal_service_stopping ≡ true → s.network.internal_service_work ≡ false

Step-IsValid : {s t : System} → Step s t → IsValid s → IsValid t
unfolding get_service set_service begin_shutdown join_thread
Step-IsValid (requests s) v = ground arith
Step-IsValid (sets s service) v = ground arith
Step-IsValid (shuts_down s) v = ground arith
Step-IsValid (joins s stopping idle) v = ground arith

pub Reach-IsValid : {s : System} → Reach s → IsValid s
Reach-IsValid here = record {
  once = omega arith;
  running = λ h. (refl, refl);
  stopped = λ h. absurd (cc);
}
Reach-IsValid (next r step) = Step-IsValid step (Reach-IsValid r)

abbrev pub Requests : NetworkService → Type 0
Requests n =
    let (service, after) = get_service n in
    (service ≡ (
      if uses_internal_service n && n.internal_service_stopping
      then throw logic_error
      else ok n.current_service))
    × (after.current_service ≡ n.current_service)
    × (service ≡ ok internal_service
        → (after.service_thread ≡ true) × (after.internal_service_work ≡ true))

request :
    (thread : Bool) (service : Service) (work stopping : Bool)
    → (stopping ≡ false → work ≡ thread)
    → Requests (record {
      service_thread = thread;
      current_service = service;
      internal_service_work = work;
      internal_service_stopping = stopping;
    })
unfolding get_service uses_internal_service
request thread (external_service a) work stopping h = (refl, refl, λ e. absurd (cc))
request thread internal_service work true h = (refl, refl, λ e. absurd (cc))
request true internal_service work false h = (refl, refl, λ e. (refl, h refl))
request false internal_service work false h = (refl, refl, λ e. (refl, refl))

-- A request gives the service that is set, and keeps it set. It throws logic_error exactly when that
-- is the internal one and the shutdown has begun; the internal service is given with its thread there
-- and with work.
pub get_service_lem : {s : System} → Reach s → Requests s.network
get_service_lem {s} r =
    request s.network.service_thread s.network.current_service s.network.internal_service_work
      s.network.internal_service_stopping (λ h. ((Reach-IsValid r).running h).0)

pub get_service-stopping :
    (n : NetworkService) → (get_service n).1.internal_service_stopping ≡ n.internal_service_stopping
unfolding get_service
get_service-stopping n = ground arith

pub get_service-throw :
    (n : NetworkService) (e : Exception)
    → (get_service n).0 ≡ throw e
    → n.internal_service_stopping ≡ true
unfolding get_service
get_service-throw n e h = ground arith
