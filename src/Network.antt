-- ===== src/Network.antt =====
-- src/network.cpp: the io_service that the library works with. An external service is its address, and
-- the thread that runs the internal one is whether it is joinable.
pub mod Lifetime
mod Tests
use libslirc_old.Prelude.{ℕ, Bool, true, false, not, if◌then◌else◌, Result, ok, throw, logic_error}

pub data Service : Type 0 where
  internal_service : Service
  external_service : ℕ → Service

pub record NetworkService : Type 0 where
  pub service_thread : Bool
  pub current_service : Service
  pub internal_service_work : Bool
  pub internal_service_stopping : Bool

abbrev pub is_internal : Service → Bool
is_internal internal_service = true
is_internal (external_service address) = false

abbrev pub new_network_service : NetworkService
new_network_service = record {
  service_thread = false;
  current_service = internal_service;
  internal_service_work = false;
  internal_service_stopping = false;
}

-- The service, and the state after the call.
unfoldable pub get_service : NetworkService → Result Service × NetworkService
get_service n =
    if not (is_internal n.current_service)
    then (ok n.current_service, n)
    else if n.internal_service_stopping
    then (throw logic_error, n)
    else (
      ok internal_service,
      if not n.service_thread
          then record n { internal_service_work = true; service_thread = true }
          else n,
    )

-- `network::service(external_service)`; the argument may be the internal service.
pub set_service : Service → NetworkService → NetworkService
set_service service n = record n { current_service = service }

pub uses_internal_service : NetworkService → Bool
uses_internal_service n = is_internal n.current_service

-- The destructor up to the `join`, and behind it.
pub begin_shutdown : NetworkService → NetworkService
begin_shutdown n =
    let stopping = record n { internal_service_stopping = true } in
    if n.service_thread then record stopping { internal_service_work = false } else stopping

pub join_thread : NetworkService → NetworkService
join_thread n = record n { service_thread = false }
