-- ===== src/Device/Services/Restart.antt =====
-- When ReinitializeDevice restarts the device.
use bacnet_profile_example_b.Base.{
  ℕ, ◌≡◌, refl, Bool, true, false, ◌&&◌, ◌||◌, List, Option, none, some, if◌then◌else◌, ◌==◌, inl,
  inr, arith, Bool-cases,
}
use bacnet_profile_example_b.Options.{DataLink, same_link}
use bacnet_profile_example_b.Cert.Host.{Host}
use bacnet_profile_example_b.ScNode.{ScState, apply_staged_certificates}
use bacnet_profile_example_b.Device.{Device, Verdict, accepted, rejected, RestartKind, cold, warm}
use bacnet_profile_example_b.Device.Password.{Supplied, password_accepted}
use bacnet_profile_example_b.Device.Services.{
  Reinitialized, reinitialize_device, after_certificates, act_on_state,
}
use bacnet_profile_example_b.Bacnet.{
  reinitialize_state_coldstart, reinitialize_state_warmstart, reinitialize_state_activate_changes,
}

abbrev pub state_of : RestartKind → ℕ
state_of cold = reinitialize_state_coldstart
state_of warm = reinitialize_state_warmstart

-- A restart that is asked for is of the state requested, and the request is accepted.
abbrev Restarts : ℕ → Reinitialized → Type 0
Restarts state r = (k : RestartKind) → r.1 ≡ some k → (r.2 ≡ accepted) × (state ≡ state_of k)

no_restart : (state : ℕ) (d : Device) (v : Verdict) → Restarts state (d, none, v)
no_restart state d v k e = ground (arith, e)

one_restart :
    (state : ℕ) (d : Device) (k : RestartKind)
    → state ≡ state_of k
    → Restarts state (d, some k, accepted)
one_restart state d k same k' e = (refl, ground (arith, e, same))

if-Restarts :
    (state : ℕ) (test : Bool) (a b : Reinitialized)
    → (test ≡ true → Restarts state a)
    → (test ≡ false → Restarts state b)
    → Restarts state (if test then a else b)
if-Restarts state true a b ha hb = ha refl
if-Restarts state false a b ha hb = hb refl

act_on_state-Restarts : (d : Device) (state : ℕ) → Restarts state (act_on_state d state)
unfolding act_on_state
act_on_state-Restarts d state =
    if-Restarts state (state == reinitialize_state_activate_changes) _ _
      (λ e. no_restart state d accepted)
      λ e.
        if-Restarts state (state == reinitialize_state_coldstart) _ _
          (λ e. one_restart state d cold (ground (arith, e)))
          λ e.
            if-Restarts state (state == reinitialize_state_warmstart) _ _
              (λ e. one_restart state d warm (ground (arith, e)))
              λ e.
                if-Restarts state _ _ _ (λ e. no_restart state d accepted)
                  (λ e. no_restart state d _)

after_certificates-Restarts :
    (d : Device) (state : ℕ) (applied : ScState × Option ℕ)
    → Restarts state (after_certificates d state applied)
unfolding after_certificates
after_certificates-Restarts d state (sc', some code) =
    no_restart state (record d { sc = sc' }) (rejected code)
after_certificates-Restarts d state (sc', none) =
    act_on_state-Restarts (record d { sc = sc' }) state

-- ReinitializeDevice asks for a cold or a warm restart only when the request names this device, its
-- password is accepted, the state requested is that restart, and the answer is success.
pub reinitialize_device-restart :
    (required : List ℕ) (host : Host) (d : Device) (device_instance state : ℕ)
    → (supplied : Supplied) (k : RestartKind)
    → (reinitialize_device required host d device_instance state supplied).1 ≡ some k
    → ((device_instance == d.device_instance) ≡ true)
      × (password_accepted required supplied ≡ true)
      × (state ≡ state_of k)
      × ((reinitialize_device required host d device_instance state supplied).2 ≡ accepted)
unfolding reinitialize_device
reinitialize_device-restart required host d device_instance state supplied k e =
    elim (Bool-cases (device_instance == d.device_instance)) [
      | inr other ↦ absurd (ground (arith, simp other at e))
      | inl own ↦ elim (Bool-cases (password_accepted required supplied)) [
        | inr wrong ↦ absurd (ground (arith, simp (own, wrong) at e))
        | inl right ↦
            let result =
              if-Restarts state
                (same_link d.options.data_link DataLink.sc
                  && (state == reinitialize_state_activate_changes
                      || state == reinitialize_state_warmstart))
                _ _ (λ t. after_certificates-Restarts d state (apply_staged_certificates host d.sc))
                (λ t. act_on_state-Restarts d state) in
            let (good, same) = result k (simp (own, right) at e) in
            (own, right, same, simp (own, right) good)
      ]
    ]
