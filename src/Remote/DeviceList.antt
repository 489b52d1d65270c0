-- ===== src/Remote/DeviceList.antt =====
-- src/remote_device/RemoteDeviceList.cpp, with what RemoteDeviceDescriptor.cpp compares: the readers
-- in the network that announced themselves. Times are the milliseconds of a day, as QTime has them;
-- `QTime::addMSecs` of a negative number is an argument. A pointer to an entry is the entry.
pub mod Unique
use text.Mathlib.Text.{◌==◌ as str_eq}
use ausweis_app2_omapi.Prelude.{
  ℕ, Bool, true, false, ◌&&◌, if◌then◌else◌, ltb, String, Option, none, some, List, [], ◌∷◌, ◌++◌,
}
use ausweis_app2_omapi.Remote.Dispatcher.{Version, version_eq}

pub record DescriptorData : Type 0 where
  pub ifd_name : String
  pub ifd_id : String
  pub api_versions : List Version
  pub url : String

-- A descriptor whose data pointer may be null.
abbrev pub RemoteDeviceDescriptor : Type 0
RemoteDeviceDescriptor = Option DescriptorData

abbrev pub same_versions : List Version → List Version → Bool
same_versions [] [] = true
same_versions (v ∷ l) (w ∷ m) = version_eq v w && same_versions l m
same_versions _ _ = false

unfoldable pub data_equivalent : DescriptorData → DescriptorData → Bool
data_equivalent a b =
    str_eq a.ifd_name b.ifd_name
    && (str_eq a.ifd_id b.ifd_id && same_versions a.api_versions b.api_versions)

unfoldable pub is_equivalent : RemoteDeviceDescriptor → RemoteDeviceDescriptor → Bool
unfolding data_equivalent
is_equivalent none none = true
is_equivalent (some a) (some b) = data_equivalent a b
is_equivalent _ _ = false

pub record Entry : Type 0 where
  pub descriptor : RemoteDeviceDescriptor
  pub last_seen : ℕ

abbrev pub contains_equivalent : Entry → RemoteDeviceDescriptor → Bool
contains_equivalent e d = is_equivalent e.descriptor d

-- The list and whether the timer runs.
pub record Devices : Type 0 where
  pub responsive_list : List Entry
  pub timer_active : Bool

pub data Signal : Type 0 where
  device_appeared : Entry → Signal
  device_vanished : Option Entry → Signal

abbrev pub new_devices : Devices
new_devices = record { responsive_list = []; timer_active = false }

abbrev pub put_first : Entry → Option (List Entry) → Option (List Entry)
put_first e none = none
put_first e (some l) = some (e ∷ l)

-- The loop of `update`: the list in which the first equivalent entry is seen now, if there is one.
unfoldable pub set_last_seen : List Entry → RemoteDeviceDescriptor → ℕ → Option (List Entry)
set_last_seen [] d now = none
set_last_seen (e ∷ l) d now =
    let rest = put_first e (set_last_seen l d now) in
    if contains_equivalent e d
    then some (record { descriptor = e.descriptor; last_seen = now } ∷ l)
    else rest

abbrev pub updated :
    Devices → RemoteDeviceDescriptor → ℕ → Option (List Entry) → Devices × List Signal
updated s d now (some l) = (record { responsive_list = l; timer_active = s.timer_active }, [])
updated s d now none =
    let device : Entry = record { descriptor = d; last_seen = now } in
    (
      record { responsive_list = s.responsive_list ++ (device ∷ []); timer_active = true },
      device_appeared device ∷ [],
    )

unfoldable pub update : Devices → RemoteDeviceDescriptor → ℕ → Devices × List Signal
update s d now = updated s d now (set_last_seen s.responsive_list d now)

unfoldable pub clear : Devices → Devices
clear s = record { responsive_list = []; timer_active = s.timer_active }

unfoldable pub still_responsive : ℕ → List Entry → List Entry
still_responsive threshold [] = []
still_responsive threshold (e ∷ l) =
    let rest = still_responsive threshold l in if ltb e.last_seen threshold then rest else e ∷ rest

-- `entry` refers to its place in the list, from which it was removed before the signal: the entry behind
-- it stands there now, or none, where the place is behind the end.
abbrev pub at_place : List Entry → Option Entry
at_place [] = none
at_place (e ∷ l) = some e

unfoldable pub vanished : ℕ → List Entry → List Signal
vanished threshold [] = []
vanished threshold (e ∷ l) =
    let rest = vanished threshold l in
    if ltb e.last_seen threshold then device_vanished (at_place l) ∷ rest else rest

-- The timer stops when the list is empty.
abbrev pub stop_if_empty : List Entry → Bool → Devices
stop_if_empty [] active = record { responsive_list = []; timer_active = false }
stop_if_empty (e ∷ l) active = record { responsive_list = e ∷ l; timer_active = active }

module _ (subtract_msecs : ℕ → ℕ → ℕ) (responsive_timeout : ℕ) where
  unfoldable pub on_process_unresponsive_remote_readers : Devices → ℕ → Devices × List Signal
  on_process_unresponsive_remote_readers s now =
      let threshold = subtract_msecs now responsive_timeout in
      (
        stop_if_empty (still_responsive threshold s.responsive_list) s.timer_active,
        vanished threshold s.responsive_list,
      )

-- What happens to the list.
pub data Event : Type 0 where
  announced : RemoteDeviceDescriptor → ℕ → Event
  cleared : Event
  timed_out : ℕ → Event

module _ (subtract_msecs : ℕ → ℕ → ℕ) (responsive_timeout : ℕ) where
  abbrev pub happens : Devices → Event → Devices
  happens s (announced d now) = (update s d now).0
  happens s cleared = clear s
  happens s (timed_out now) =
      (on_process_unresponsive_remote_readers subtract_msecs responsive_timeout s now).0

  unfoldable pub run_events : Devices → List Event → Devices
  run_events s [] = s
  run_events s (e ∷ l) = run_events (happens s e) l
