-- ===== src/Tests/DeviceLists.antt =====
-- A list of remote devices: src/remote_device/RemoteDeviceList.cpp.
use ausweis_app2_omapi.Prelude.{ℕ, ◌+◌, ◌-◌, ◌%◌, true, some, List, [], ◌∷◌, none, ◌≡◌, refl}
use ausweis_app2_omapi.Remote.Dispatcher.{v0}
use ausweis_app2_omapi.Remote.DeviceList.{
  RemoteDeviceDescriptor, new_devices, set_last_seen, is_equivalent, data_equivalent, update, clear,
  still_responsive, vanished, on_process_unresponsive_remote_readers, Event, announced, cleared,
  timed_out, run_events, device_vanished,
}
use ausweis_app2_omapi.Remote.DeviceList.Unique.{IsTidy, run_events-IsTidy}

abbrev phone : RemoteDeviceDescriptor
phone =
    some (record { ifd_name = "phone"; ifd_id = "1"; api_versions = v0 ∷ []; url = "wss://a:1" })

-- The same device at another address.
abbrev moved : RemoteDeviceDescriptor
moved =
    some (record { ifd_name = "phone"; ifd_id = "1"; api_versions = v0 ∷ []; url = "wss://b:1" })

abbrev tablet : RemoteDeviceDescriptor
tablet =
    some (record { ifd_name = "tablet"; ifd_id = "2"; api_versions = v0 ∷ []; url = "wss://c:1" })

abbrev subtract_in_day : ℕ → ℕ → ℕ
subtract_in_day now ms = (now + 86400000 - ms) % 86400000

abbrev day : List Event
day = announced phone 1000 ∷ announced tablet 7000 ∷ announced moved 8000 ∷ timed_out 12500 ∷ []

-- The tablet has been silent for longer than the phone.
day_devices : run_events subtract_in_day 5000 new_devices day ≡ record {
  responsive_list = record { descriptor = phone; last_seen = 8000 } ∷ [];
  timer_active = true;
}
unfolding run_events update set_last_seen is_equivalent data_equivalent still_responsive
    on_process_unresponsive_remote_readers
day_devices = refl

-- Two seconds after midnight, a device that was seen one second ago vanishes; the signal refers to a
-- place behind the end of the list.
vanished_at_midnight :
    (on_process_unresponsive_remote_readers subtract_in_day 5000
      (run_events subtract_in_day 5000 new_devices (cleared ∷ announced phone 1000 ∷ []))
      2000).1
    ≡ device_vanished none ∷ []
unfolding run_events update clear set_last_seen on_process_unresponsive_remote_readers vanished
vanished_at_midnight = refl

run_events-IsTidy_example : IsTidy (run_events subtract_in_day 5000 new_devices day)
run_events-IsTidy_example = run_events-IsTidy subtract_in_day 5000 day
