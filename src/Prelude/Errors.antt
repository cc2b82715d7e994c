-- ===== src/Prelude/Errors.antt =====
-- The exceptions that the library throws or passes on, and a result that may be one of them.
pub data Exception : Type 0 where
  already_connected component_conflict invalid_event_id module_conflict : Exception
  out_of_range range_error bad_cast logic_error system_error bad_function_call : Exception
  -- What a constructor or a callback of the user threw.
  foreign : Exception

pub data Result {ℓ} (A : Type ℓ) : Type ℓ where
  ok : A → Result A
  throw : Exception → Result A
