-- ===== src/Auth/Verified.antt =====
-- The messages that may change the guards.
use zdx_paralell_pyxel_vm.Base.{ℕ, ◌≤◌, ◌≡◌, ◌≢◌, refl, ◌⊎◌, inl, inr, true, false, arith}
use zdx_paralell_pyxel_vm.Base.Dict.{Dict}
use zdx_paralell_pyxel_vm.Base.Results.{ok, Result-cases}
use zdx_paralell_pyxel_vm.Auth.Guard.{ReplayGuardState}
use zdx_paralell_pyxel_vm.Auth.Pipeline.{
  Message, Arrival, Checks, message_age, verified, process_message,
}

module _ (c : Checks) where
  -- The first five stages pass the message.
  abbrev pub IsVerified : ℕ → Message → Type 0
  IsVerified now m =
      (m.protocol_version ≡ 1)
      × (message_age now m.timestamp ≤ 60000000)
      × (c.verify_signature m.peer_id m.payload m.signature ≡ true)
      × (c.check_revocation m.peer_id ≡ false)
      × (c.check_enrollment m.peer_id ≡ true)

  verified-IsVerified :
      (now : ℕ) (m : Message) (u : Unit {0}) → verified c now m ≡ ok u → IsVerified now m
  unfolding verified
  verified-IsVerified now m u h = (
    ground (arith, h),
    ground (arith, h),
    ground (arith, h),
    ground (arith, h),
    ground (arith, h),
  )

  -- A message that is dispatched, or that changes the guards at all, has the version 1, was sent within 60
  -- seconds of the clock, has a signature that verifies, and is from an enrolled peer that is not revoked.
  pub process_message-IsVerified :
      (a : Arrival) (guards : Dict ReplayGuardState)
      → (((process_message c a guards).0 ≡ guards) × ((process_message c a guards).1 ≢ ok tt))
        ⊎ IsVerified a.checked_at a.message
  unfolding process_message
  process_message-IsVerified a guards = elim (Result-cases (verified c a.checked_at a.message)) [
    | inl (e, refused) ↦
        inl (rw (refused, process_message) refl, λ h. cc (rw (refused, process_message) at h))
    | inr (passed, fine) ↦ inr (verified-IsVerified a.checked_at a.message passed fine)
  ]
