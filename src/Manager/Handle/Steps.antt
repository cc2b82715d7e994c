-- ===== src/Manager/Handle/Steps.antt =====
-- src/modules/event_manager.cpp: one step of the inner loop of `handle`.
use libslirc_old.Prelude.{ℕ, suc, ◌≡◌, Bool, true, false, arith}
use libslirc_old.EventId.{IdType, is_valid}
use libslirc_old.Manager.Handle.{Context, finished, ◌>>=◌, popped, handle_as, handle_ids}

module _ {U : Type 0} (signals : IdType → Context U → Bool × Context U) where
  pub handle_ids_last :
      (fuel : ℕ) (id : IdType) (c : Context U)
      → is_valid id ≡ false
      → handle_ids signals (suc fuel) id c ≡ finished c
  unfolding handle_ids
  handle_ids_last fuel id c h = ground arith

  pub handle_ids_more :
      (fuel : ℕ) (id : IdType) (c : Context U)
      → is_valid id ≡ true
      → handle_ids signals (suc fuel) id c ≡ (
          handle_as signals id c >>= λ handled.
          handle_ids signals fuel (popped handled).0 (popped handled).1)
  unfolding handle_ids
  handle_ids_more fuel id c h = ground arith
