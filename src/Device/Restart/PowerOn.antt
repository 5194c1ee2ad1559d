-- ===== src/Device/Restart/PowerOn.antt =====
-- What the property callbacks serve after a restart.
use bacnet_profile_example_b.Base.{
  ℕ, ◌-◌, ◌≤◌, ◌≡◌, refl, ap, ◌∙◌, true, false, not, get_or, get_or-replicate_self,
}
use bacnet_profile_example_b.Priority.{at_power_on}
use bacnet_profile_example_b.Device.{
  Device, Output, analog, binary, multi_state, cold, warm, answer,
}
use bacnet_profile_example_b.Device.Get.Flag.{get_property_bool}
use bacnet_profile_example_b.Device.Commands.{slot, get_property_bool-slot}
use bacnet_profile_example_b.Device.Restart.{restart}

null_at_power_on :
    (v j : ℕ) → answer (not (get_or (at_power_on v).is_set (j - 1) false)) ≡ answer true
unfolding at_power_on
null_at_power_on v j = ap (λ b. answer (not b)) (get_or-replicate_self 16 (j - 1) false)

-- After a cold start GetPropertyBool says of every slot of the three Priority_Arrays that it is
-- null, whatever was commanded; Ivory, Diamond's reliability and the certificates are kept. After a
-- warm start every slot says what it said before.
pub get_property_bool-restart :
    (d : Device) (o : Output) (j : ℕ)
    → 1 ≤ j
    → j ≤ 16
    → (get_property_bool (restart d cold) (slot (restart d cold) o j) ≡ answer true)
      × ((restart d cold).ivory ≡ d.ivory)
      × ((restart d cold).diamond_reliability ≡ d.diamond_reliability)
      × ((restart d cold).sc ≡ d.sc)
      × (get_property_bool (restart d warm) (slot (restart d warm) o j)
          ≡ get_property_bool d (slot d o j))
unfolding restart
get_property_bool-restart d analog j low high = (
  get_property_bool-slot (restart d cold) analog j low high ∙ null_at_power_on _ j,
  refl,
  refl,
  refl,
  refl,
)
get_property_bool-restart d binary j low high = (
  get_property_bool-slot (restart d cold) binary j low high ∙ null_at_power_on _ j,
  refl,
  refl,
  refl,
  refl,
)
get_property_bool-restart d multi_state j low high = (
  get_property_bool-slot (restart d cold) multi_state j low high ∙ null_at_power_on _ j,
  refl,
  refl,
  refl,
  refl,
)
