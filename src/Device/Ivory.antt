-- ===== src/Device/Ivory.antt =====
-- main.cpp: `ReadFile` and `WriteFile` on File 1, "Ivory", a buffer of FILE_MAX_SIZE octets, and
-- the dispatch to the certificate files.
pub mod RoundTrip
use bacnet_profile_example_b.Base.{
  ℕ, ◌+◌, ◌-◌, ◌%◌, ◌^◌, true, ◌&&◌, ◌||◌, not, List, [], Option, none, some, if◌then◌else◌, ◌==◌,
  leb, ltb, length, take, drop, overwrite,
}
use bacnet_profile_example_b.Base.Int.{ℤ, pos, negsuc, to_u32}
use bacnet_profile_example_b.Cert.Host.{Host}
use bacnet_profile_example_b.Cert.Store.{Written, wrote, write_refused}
use bacnet_profile_example_b.ScNode.{Chunk, read_certificate_file, write_certificate_file}
use bacnet_profile_example_b.Device.{Device, IvoryFile, is_sc_certificate_file}
use bacnet_profile_example_b.Bacnet.{file_max_size, file_instance, object_type_file}

-- The length that is copied: the two `if` lines.
unfoldable pub to_copy : ℕ → ℕ → ℕ → ℕ
to_copy available requested_count max_length =
    let wanted = if ltb requested_count available then requested_count else available in
    if ltb max_length wanted then max_length else wanted

unfoldable pub read_ivory : IvoryFile → ℕ → ℕ → ℕ → Chunk
unfolding to_copy
read_ivory f file_start requested_count max_length =
    if leb f.used file_start
    then record { octets = []; end_of_file = true }
    else let count = to_copy (f.used - file_start) requested_count max_length in
      record {
        octets = take count (drop file_start f.buffer);
        end_of_file = leb f.used (file_start + count);
      }

-- `none` is the callback's `false`.
unfoldable pub read_file : Device → ℕ → ℕ → ℕ → ℕ → ℕ → Option Chunk
unfolding is_sc_certificate_file read_certificate_file read_ivory
read_file d device_instance file file_start requested_count max_length =
    if device_instance == d.device_instance && is_sc_certificate_file d object_type_file file
    then read_certificate_file d.sc file file_start requested_count max_length
    else if not (device_instance == d.device_instance) || not (file == file_instance)
    then none
    else some (read_ivory d.ivory file_start requested_count max_length)

-- `overrun`: the memcpy would leave the buffer, which C++ gives no meaning.
pub data IvoryWrite : Type 0 where
  acknowledged : ℕ → IvoryFile → IvoryWrite
  refused overrun : IvoryWrite

-- uint32_t arithmetic: `start + fileDataLength` wraps.
abbrev pub add_u32 : ℕ → ℕ → ℕ
add_u32 a b = (a + b) % 2 ^ 32

abbrev pub ivory_start : IvoryFile → ℤ → ℕ
ivory_start f (pos n) = n
ivory_start f (negsuc n) = if n == 0 then f.used else to_u32 (negsuc n)

unfoldable pub write_ivory_at : IvoryFile → ℕ → List ℕ → IvoryWrite
write_ivory_at f start octets =
    if ltb file_max_size (add_u32 start (length octets))
    then refused
    else if ltb file_max_size (start + length octets)
    then overrun
    else acknowledged start (record f {
      buffer = overwrite f.buffer start octets;
      used =
          if ltb f.used (add_u32 start (length octets))
          then add_u32 start (length octets)
          else f.used;
    })

unfoldable pub write_ivory : IvoryFile → ℤ → List ℕ → IvoryWrite
unfolding write_ivory_at
write_ivory f file_start octets = write_ivory_at f (ivory_start f file_start) octets

-- The acknowledged start; `false` with or without an error code.
pub data FileWrite : Type 0 where
  written : ℕ → FileWrite
  not_written : Option ℕ → FileWrite

certificate_write : Option Written → FileWrite
certificate_write none = not_written none
certificate_write (some (wrote start)) = written start
certificate_write (some (write_refused code)) = not_written (some code)

-- No device is left where the behaviour is undefined.
unfoldable pub ivory_write : Device → IvoryWrite → Option (Device × FileWrite)
ivory_write d (acknowledged start f) = some (record d { ivory = f }, written start)
ivory_write d refused = some (d, not_written none)
ivory_write d overrun = none

-- `none` where the memcpy of `WriteFile` would leave Ivory's buffer.
unfoldable pub write_file : Host → Device → ℕ → ℕ → ℤ → List ℕ → Option (Device × FileWrite)
unfolding is_sc_certificate_file write_certificate_file certificate_write write_ivory ivory_write
write_file host d device_instance file file_start octets =
    let (sc', outcome) = write_certificate_file host d.sc file file_start octets in
    if device_instance == d.device_instance && is_sc_certificate_file d object_type_file file
    then some (record d { sc = sc' }, certificate_write outcome)
    else if not (device_instance == d.device_instance) || not (file == file_instance)
    then some (d, not_written none)
    else ivory_write d (write_ivory d.ivory file_start octets)
