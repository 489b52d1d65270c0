-- ===== src/Remote/Server/Removal.antt =====
-- A connection goes when its card does.
use text.Mathlib.Text.{◌==◌ as str_eq}
use ausweis_app2_omapi.Prelude.{
  Bool, true, false, not, if◌then◌else◌, String, none, [], ◌∷◌, ◌≡◌, refl, ap, sym, ◌∙◌,
}
use mathlib.Core.Bool.{false≢true}
use ausweis_app2_omapi.Remote.Server.Connections.{
  CardConnection, Connections, find_connection, remove_connection, uses_reader,
  slot_handle_for_reader_name,
}
use ausweis_app2_omapi.Remote.Server.Lookup.{
  str_eq_refl, str_eq_path, find_connection-remove_connection,
}
use ausweis_app2_omapi.Remote.Server.Handlers.{Environment}
use ausweis_app2_omapi.Remote.Server.Completions.{on_reader_changed}

-- No two connections use the same reader.
abbrev pub IsUnshared : Connections → Type 0
IsUnshared [] = Unit
IsUnshared (p ∷ l) = (uses_reader l p.1.reader.name ≡ false) × IsUnshared l

abbrev choose : Bool → Bool → Bool → Bool
choose b x y = if b then x else y

abbrev listed : Bool → Connections → Connections → Connections
listed b x y = if b then x else y

not_used_step :
    (p : String × CardConnection) (l m : Connections) (name : String) (b d : Bool)
    → str_eq p.1.reader.name name ≡ d
    → choose d true (uses_reader l name) ≡ false
    → (uses_reader l name ≡ false → uses_reader m name ≡ false)
    → uses_reader (listed b m (p ∷ m)) name ≡ false
unfolding uses_reader
not_used_step p l m name b true e h f = elim (false≢true (sym h)) [ ]
not_used_step p l m name true false e h f = f h
not_used_step p l m name false false e h f = ap (λ x. choose x true (uses_reader m name)) e ∙ f h

not_used :
    (l : Connections) (handle name : String)
    → uses_reader l name ≡ false
    → uses_reader (remove_connection l handle) name ≡ false
unfolding uses_reader remove_connection
not_used [] handle name h = refl
not_used (p ∷ l) handle name h =
    not_used_step p l (remove_connection l handle) name (str_eq p.0 handle)
      (str_eq p.1.reader.name name) refl h (not_used l handle name)

kept_out :
    (p : String × CardConnection) (m : Connections) (name : String) (b : Bool)
    → str_eq p.1.reader.name name ≡ false
    → uses_reader m name ≡ false
    → uses_reader (listed b m (p ∷ m)) name ≡ false
unfolding uses_reader
kept_out p m name true e h = h
kept_out p m name false e h = ap (λ x. choose x true (uses_reader m name)) e ∙ h

-- What is left of a connection and others once a handle is removed.
abbrev left : (p : String × CardConnection) → Connections → String → Connections
left p l handle =
    listed (str_eq p.0 handle) (remove_connection l handle) (p ∷ remove_connection l handle)

abbrev first_handle : Bool → String → String → String
first_handle b x y = if b then x else y

removed_step :
    (p : String × CardConnection) (l : Connections) (name : String) (d : Bool)
    → str_eq p.1.reader.name name ≡ d
    → uses_reader l p.1.reader.name ≡ false
    → uses_reader (remove_connection l (slot_handle_for_reader_name l name)) name ≡ false
    → uses_reader (left p l (first_handle d p.0 (slot_handle_for_reader_name l name))) name ≡ false
removed_step p l name true e u h =
    let unused : uses_reader l name ≡ false =
      ap (uses_reader l) (sym (str_eq_path p.1.reader.name name e)) ∙ u in
    ap (λ b. uses_reader (listed b (remove_connection l p.0) (p ∷ remove_connection l p.0)) name)
      (str_eq_refl p.0)
    ∙ not_used l p.0 name unused
removed_step p l name false e u h =
    let handle : String = slot_handle_for_reader_name l name in
    kept_out p (remove_connection l handle) name (str_eq p.0 handle) e h

removed :
    (l : Connections) (name : String)
    → IsUnshared l
    → uses_reader (remove_connection l (slot_handle_for_reader_name l name)) name ≡ false
unfolding uses_reader remove_connection slot_handle_for_reader_name
removed [] name u = refl
removed (p ∷ l) name u =
    removed_step p l name (str_eq p.1.reader.name name) refl u.0 (removed l name u.1)

-- Where no two connections use one reader, and the card of a reader is no eID card any more, the server
-- holds no connection to that reader afterwards; under any handle but the one of that connection, it
-- finds what it found before.
pub on_reader_changed-uses_reader :
    (e : Environment) (l : Connections) (name key : String)
    → IsUnshared l
    → (e.reader_info name).eid_card ≡ false
    → (uses_reader (on_reader_changed e l name).0 name ≡ false)
      × (find_connection (on_reader_changed e l name).0 key ≡ (
          if str_eq (slot_handle_for_reader_name l name) key then none else find_connection l key))
unfolding on_reader_changed
on_reader_changed-uses_reader e l name key u h =
    let handle : String = slot_handle_for_reader_name l name in
    let gone : (if not (e.reader_info name).eid_card then remove_connection l handle else l)
        ≡ remove_connection l handle =
      ap (λ b. if not b then remove_connection l handle else l) h in
    (
      ap (λ m. uses_reader m name) gone ∙ removed l name u,
      ap (λ m. find_connection m key) gone ∙ find_connection-remove_connection l handle key,
    )
