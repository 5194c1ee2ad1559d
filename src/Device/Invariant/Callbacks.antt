-- ===== src/Device/Invariant/Callbacks.antt =====
-- The five Set callbacks keep a device well formed.
use bacnet_profile_example_b.Base.{ℕ, ◌≡◌, refl, Bool, not, ◌&&◌, ◌==◌}
use bacnet_profile_example_b.Options.{DataLink}
use bacnet_profile_example_b.Floats.{Floats}
use bacnet_profile_example_b.Cert.Host.{Host}
use bacnet_profile_example_b.Device.{
  Device, Query, accepted, declined, get_commandable, is_data_link_port,
  active_network_port_instance, is_sc_certificate_file,
}
use bacnet_profile_example_b.Device.Port.{set_data_link_port_unsigned}
use bacnet_profile_example_b.Device.Set.{
  set_property_real, set_property_enumerated, set_property_unsigned_integer, set_property_null,
  set_property_bool, resize_certificate,
}
use bacnet_profile_example_b.Device.Invariant.{
  IsWellFormed, either, set_real_of-IsWellFormed, set_enumerated_of-IsWellFormed,
  set_unsigned_of-IsWellFormed, relinquish_of-IsWellFormed,
}
use bacnet_profile_example_b.Bacnet.{
  object_type_network_port, property_identifier_network_number, property_identifier_file_size,
  property_identifier_max_master, property_identifier_max_info_frames,
}

pub set_property_real-IsWellFormed :
    (fl : Floats) (d : Device) (q : Query) (value priority : ℕ)
    → IsWellFormed fl d
    → IsWellFormed fl (set_property_real fl d q value priority).0
unfolding set_property_real
set_property_real-IsWellFormed fl d q value priority h =
    either fl (not (q.device_instance == d.device_instance)) (d, declined) _ (λ e. h)
      λ e.
        set_real_of-IsWellFormed fl d q value priority
          (get_commandable q.object_type q.object_instance) h

pub set_property_enumerated-IsWellFormed :
    (fl : Floats) (d : Device) (q : Query) (value priority : ℕ)
    → IsWellFormed fl d
    → IsWellFormed fl (set_property_enumerated fl d q value priority).0
unfolding set_property_enumerated
set_property_enumerated-IsWellFormed fl d q value priority h =
    either fl (not (q.device_instance == d.device_instance)) (d, declined) _ (λ e. h)
      λ e.
        set_enumerated_of-IsWellFormed fl d q value priority
          (get_commandable q.object_type q.object_instance) h

pub set_property_null-IsWellFormed :
    (fl : Floats) (d : Device) (q : Query) (priority : ℕ)
    → IsWellFormed fl d
    → IsWellFormed fl (set_property_null d q priority).0
unfolding set_property_null
set_property_null-IsWellFormed fl d q priority h =
    either fl (not (q.device_instance == d.device_instance)) (d, declined) _ (λ e. h)
      λ e.
        relinquish_of-IsWellFormed fl d q priority (get_commandable q.object_type q.object_instance)
          h

-- Neither the options, nor the certificate files, nor the archive flag matter.
pub same_parts :
    (fl : Floats) (d d' : Device)
    → d'.analog_output ≡ d.analog_output
    → d'.binary_output ≡ d.binary_output
    → d'.multi_state_output ≡ d.multi_state_output
    → d'.ivory.buffer ≡ d.ivory.buffer
    → d'.ivory.used ≡ d.ivory.used
    → IsWellFormed fl d
    → IsWellFormed fl d'
same_parts fl d d' a b m f u h = record {
  analog_sixteen = rw a h.analog_sixteen;
  binary_sixteen = rw b h.binary_sixteen;
  multi_state_sixteen = rw m h.multi_state_sixteen;
  binary_values = rw b h.binary_values;
  states = rw m h.states;
  buffer_length = rw f h.buffer_length;
  used_bound = rw u h.used_bound;
}

pub set_property_bool-IsWellFormed :
    (fl : Floats) (d : Device) (q : Query) (value : Bool)
    → IsWellFormed fl d
    → IsWellFormed fl (set_property_bool d q value).0
unfolding set_property_bool
set_property_bool-IsWellFormed fl d q value h =
    either fl _ (d, declined) (record d { ivory = record (d.ivory) { archive = value } }, accepted)
      (λ e. h) (λ e. same_parts fl d _ refl refl refl refl refl h)

set_data_link_port_unsigned-IsWellFormed :
    (fl : Floats) (d : Device) (q : Query) (value : ℕ)
    → IsWellFormed fl d
    → IsWellFormed fl (set_data_link_port_unsigned d q value).0
unfolding set_data_link_port_unsigned
set_data_link_port_unsigned-IsWellFormed fl d q value h =
    either fl (not (is_data_link_port d q.object_type q.object_instance DataLink.mstp))
      (d, declined) _ (λ e. h)
      λ e.
        either fl (q.property_identifier == property_identifier_max_master) _ _
          (λ e'. same_parts fl d _ refl refl refl refl refl h)
          λ e'.
            either fl (q.property_identifier == property_identifier_max_info_frames) _ _
              (λ e''. same_parts fl d _ refl refl refl refl refl h) (λ e''. h)

pub set_property_unsigned_integer-IsWellFormed :
    (host : Host) (fl : Floats) (d : Device) (q : Query) (value priority : ℕ)
    → IsWellFormed fl d
    → IsWellFormed fl (set_property_unsigned_integer host fl d q value priority).0
unfolding set_property_unsigned_integer resize_certificate
set_property_unsigned_integer-IsWellFormed host fl d q value priority h =
    either fl (not (q.device_instance == d.device_instance)) (d, declined) _ (λ e. h)
      λ e.
        either fl (is_data_link_port d q.object_type q.object_instance DataLink.mstp)
          (set_data_link_port_unsigned d q value) _
          (λ e'. set_data_link_port_unsigned-IsWellFormed fl d q value h)
          λ e'.
            either fl
              (q.object_type == object_type_network_port
                && q.object_instance == active_network_port_instance d
                && q.property_identifier == property_identifier_network_number)
              (d, accepted) _ (λ e''. h)
              λ e''.
                either fl
                  (is_sc_certificate_file d q.object_type q.object_instance
                    && q.property_identifier == property_identifier_file_size)
                  (resize_certificate host d q value) _
                  (λ e'''. same_parts fl d _ refl refl refl refl refl h)
                  λ e'''.
                    set_unsigned_of-IsWellFormed fl d q value priority
                      (get_commandable q.object_type q.object_instance) h
