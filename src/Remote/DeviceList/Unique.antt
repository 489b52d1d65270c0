-- ===== src/Remote/DeviceList/Unique.antt =====
-- A reader is listed once, and the timer runs while there are readers.
use ausweis_app2_omapi.Prelude.{
  ℕ, Bool, true, false, if◌then◌else◌, ltb, Option, none, some, List, [], ◌∷◌, ◌++◌, ◌≡◌, refl, All,
}
use ausweis_app2_omapi.Remote.DeviceList.{
  RemoteDeviceDescriptor, Entry, Devices, contains_equivalent, new_devices, put_first,
  set_last_seen, updated, update, clear, still_responsive, stop_if_empty,
  on_process_unresponsive_remote_readers, Event, announced, cleared, timed_out, happens, run_events,
}

-- None of the entries is for a device that the entry is for.
abbrev pub NoneFor : Entry → List Entry → Type 0
NoneFor e l = All (λ x. contains_equivalent e x.descriptor ≡ false) l

-- No two entries are for one device.
abbrev pub IsUnique : List Entry → Type 0
IsUnique [] = Unit
IsUnique (e ∷ l) = NoneFor e l × IsUnique l

-- The timer runs if there is an entry.
abbrev pub IsWatched : List Entry → Bool → Type 0
IsWatched [] active = Unit
IsWatched (e ∷ l) active = active ≡ true

abbrev pub IsTidy : Devices → Type 0
IsTidy s = IsUnique s.responsive_list × IsWatched s.responsive_list s.timer_active

-- What the loop of `update` leaves, for a list and a device that was announced.
abbrev Kept : List Entry → RemoteDeviceDescriptor → Option (List Entry) → Type 0
Kept l d none = All (λ x. contains_equivalent x d ≡ false) l
Kept l d (some m) =
    ((e : Entry) → NoneFor e l → NoneFor e m)
    × ((IsUnique l → IsUnique m) × ((active : Bool) → IsWatched l active → IsWatched m active))

abbrev seen_choice : Bool → Entry → List Entry → ℕ → Option (List Entry) → Option (List Entry)
seen_choice b e l now o =
    if b then some (record { descriptor = e.descriptor; last_seen = now } ∷ l) else put_first e o

seen_step :
    (e : Entry) (l : List Entry) (d : RemoteDeviceDescriptor) (now : ℕ) (b : Bool)
    (o : Option (List Entry))
    → contains_equivalent e d ≡ b
    → Kept l d o
    → Kept (e ∷ l) d (seen_choice b e l now o)
seen_step e l d now true o h k = (λ x n. n, (λ u. u, λ a w. w))
seen_step e l d now false none h k = (h, k)
seen_step e l d now false (some m) h k =
    (λ x n. (n.0, k.0 x n.1), (λ u. (k.0 e u.0, k.1.0 u.1), λ a w. w))

set_last_seen-Kept :
    (l : List Entry) (d : RemoteDeviceDescriptor) (now : ℕ) → Kept l d (set_last_seen l d now)
unfolding set_last_seen
set_last_seen-Kept [] d now = tt
set_last_seen-Kept (e ∷ l) d now =
    seen_step e l d now (contains_equivalent e d) (set_last_seen l d now) refl
      (set_last_seen-Kept l d now)

NoneFor-append :
    (e x : Entry) (l : List Entry)
    → NoneFor e l
    → contains_equivalent e x.descriptor ≡ false
    → NoneFor e (l ++ (x ∷ []))
NoneFor-append e x [] n h = (h, tt)
NoneFor-append e x (y ∷ l) n h = (n.0, NoneFor-append e x l n.1 h)

IsUnique-append :
    (x : Entry) (l : List Entry)
    → IsUnique l
    → All (λ y. contains_equivalent y x.descriptor ≡ false) l
    → IsUnique (l ++ (x ∷ []))
IsUnique-append x [] u h = (tt, tt)
IsUnique-append x (y ∷ l) u h = (NoneFor-append y x l u.0 h.0, IsUnique-append x l u.1 h.1)

IsWatched-true : (l : List Entry) → IsWatched l true
IsWatched-true [] = tt
IsWatched-true (e ∷ l) = refl

updated-IsTidy :
    (s : Devices) (d : RemoteDeviceDescriptor) (now : ℕ) (o : Option (List Entry))
    → IsTidy s
    → Kept s.responsive_list d o
    → IsTidy (updated s d now o).0
updated-IsTidy s d now none t k =
    let x : Entry = record { descriptor = d; last_seen = now } in
    (IsUnique-append x s.responsive_list t.0 k, IsWatched-true (s.responsive_list ++ (x ∷ [])))
updated-IsTidy s d now (some m) t k = (k.1.0 t.0, k.1.1 s.timer_active t.1)

abbrev responsive_choice : Bool → Entry → List Entry → List Entry
responsive_choice b e l = if b then l else e ∷ l

responsive_none_step :
    (e x : Entry) (l : List Entry) (b : Bool)
    → contains_equivalent e x.descriptor ≡ false
    → NoneFor e l
    → NoneFor e (responsive_choice b x l)
responsive_none_step e x l true h n = n
responsive_none_step e x l false h n = (h, n)

still_responsive-NoneFor :
    (threshold : ℕ) (e : Entry) (l : List Entry)
    → NoneFor e l
    → NoneFor e (still_responsive threshold l)
unfolding still_responsive
still_responsive-NoneFor threshold e [] n = tt
still_responsive-NoneFor threshold e (x ∷ l) n =
    responsive_none_step e x (still_responsive threshold l) (ltb x.last_seen threshold) n.0
      (still_responsive-NoneFor threshold e l n.1)

responsive_choice_step :
    (e : Entry) (l : List Entry) (b : Bool)
    → NoneFor e l
    → IsUnique l
    → IsUnique (responsive_choice b e l)
responsive_choice_step e l true n u = u
responsive_choice_step e l false n u = (n, u)

still_responsive-IsUnique :
    (threshold : ℕ) (l : List Entry) → IsUnique l → IsUnique (still_responsive threshold l)
unfolding still_responsive
still_responsive-IsUnique threshold [] u = tt
still_responsive-IsUnique threshold (e ∷ l) u =
    responsive_choice_step e (still_responsive threshold l) (ltb e.last_seen threshold)
      (still_responsive-NoneFor threshold e l u.0) (still_responsive-IsUnique threshold l u.1)

stopped-IsTidy :
    (m : List Entry) (active : Bool) → active ≡ true → IsUnique m → IsTidy (stop_if_empty m active)
stopped-IsTidy [] active h u = (tt, tt)
stopped-IsTidy (e ∷ l) active h u = (u, h)

processed-IsTidy :
    (threshold : ℕ) (l : List Entry) (active : Bool)
    → IsUnique l
    → IsWatched l active
    → IsTidy (stop_if_empty (still_responsive threshold l) active)
unfolding still_responsive
processed-IsTidy threshold [] active u w = (tt, tt)
processed-IsTidy threshold (e ∷ l) active u w =
    stopped-IsTidy (still_responsive threshold (e ∷ l)) active w
      (still_responsive-IsUnique threshold (e ∷ l) u)

module _ (subtract_msecs : ℕ → ℕ → ℕ) (responsive_timeout : ℕ) where
  happens-IsTidy :
      (s : Devices) (e : Event) → IsTidy s → IsTidy (happens subtract_msecs responsive_timeout s e)
  unfolding update clear on_process_unresponsive_remote_readers
  happens-IsTidy s (announced d now) t =
      updated-IsTidy s d now (set_last_seen s.responsive_list d now) t
        (set_last_seen-Kept s.responsive_list d now)
  happens-IsTidy s cleared t = (tt, tt)
  happens-IsTidy s (timed_out now) t =
      processed-IsTidy (subtract_msecs now responsive_timeout) s.responsive_list s.timer_active t.0
        t.1

  run_events_from :
      (events : List Event) (s : Devices)
      → IsTidy s
      → IsTidy (run_events subtract_msecs responsive_timeout s events)
  unfolding run_events
  run_events_from [] s t = t
  run_events_from (e ∷ l) s t =
      run_events_from l (happens subtract_msecs responsive_timeout s e) (happens-IsTidy s e t)

  -- Whatever is announced, cleared or times out, in whatever order and however the times of day are
  -- subtracted: a list that was empty with its timer off has no two entries for one device, and its
  -- timer runs while there is an entry.
  pub run_events-IsTidy :
      (events : List Event)
      → IsTidy (run_events subtract_msecs responsive_timeout new_devices events)
  run_events-IsTidy events = run_events_from events new_devices (tt, tt)
