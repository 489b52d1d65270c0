-- ===== src/Remote/Server/Connections.antt =====
-- The connections to cards that a client holds, by the handles of their slots: `mCardConnections`.
use text.Mathlib.Text.{◌==◌ as str_eq}
use ausweis_app2_omapi.Prelude.{
  Bool, true, false, not, if◌then◌else◌, String, Option, none, some, List, [], ◌∷◌,
}

-- The parts of `ReaderInfo` that are asked for.
pub record ReaderInfo : Type 0 where
  pub name : String
  pub connected : Bool
  pub basic_reader : Bool
  pub eid_card : Bool

-- A connection: its reader, and whether it has a channel of its own (`mSecureMessaging`).
pub record CardConnection : Type 0 where
  pub reader : ReaderInfo
  pub secure_messaging : Bool

abbrev pub Connections : Type 0
Connections = List (String × CardConnection)

unfoldable pub find_connection : Connections → String → Option CardConnection
find_connection [] handle = none
find_connection (p ∷ l) handle = if str_eq p.0 handle then some p.1 else find_connection l handle

abbrev pub is_some : Option CardConnection → Bool
is_some (some c) = true
is_some none = false

-- `QMap::contains`
unfoldable pub is_connected : Connections → String → Bool
unfolding find_connection
is_connected l handle = is_some (find_connection l handle)

-- `QMap::insert`, in the order of the keys.
unfoldable pub insert_connection :
    (String → String → Bool) → String → CardConnection → Connections → Connections
insert_connection before handle c [] = (handle, c) ∷ []
insert_connection before handle c (p ∷ l) =
    let rest = insert_connection before handle c l in
    if str_eq p.0 handle
    then (handle, c) ∷ l
    else if before handle p.0
    then (handle, c) ∷ p ∷ l
    else p ∷ rest

-- `QMap::remove`
unfoldable pub remove_connection : Connections → String → Connections
remove_connection [] handle = []
remove_connection (p ∷ l) handle =
    let rest = remove_connection l handle in if str_eq p.0 handle then rest else p ∷ rest

-- `slotNames.contains`
unfoldable pub uses_reader : Connections → String → Bool
uses_reader [] name = false
uses_reader (p ∷ l) name = if str_eq p.1.reader.name name then true else uses_reader l name

unfoldable pub slot_handle_for_reader_name : Connections → String → String
slot_handle_for_reader_name [] name = ""
slot_handle_for_reader_name (p ∷ l) name =
    if str_eq p.1.reader.name name then p.0 else slot_handle_for_reader_name l name

unfoldable pub convert_slot_handle_backwards_compatibility : Connections → String → String
unfolding is_connected slot_handle_for_reader_name
convert_slot_handle_backwards_compatibility l name =
    let handle = slot_handle_for_reader_name l name in
    if not (is_connected l name) then (if not (str_eq handle "") then handle else name) else name

-- `CardConnection::stopSecureMessaging` of the connection with a handle.
unfoldable pub stop_secure_messaging : Connections → String → Connections
stop_secure_messaging [] handle = []
stop_secure_messaging (p ∷ l) handle =
    let rest = stop_secure_messaging l handle in
    let c : CardConnection = p.1 in
    if str_eq p.0 handle then (p.0, record c { secure_messaging = false }) ∷ l else p ∷ rest
