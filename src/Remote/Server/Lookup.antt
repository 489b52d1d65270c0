-- ===== src/Remote/Server/Lookup.antt =====
-- Connections are found under the handle with which they were inserted, and not once they are removed.
use text.Mathlib.Text.{◌==◌ as str_eq}
use text.Mathlib.TextEquality.{eq_iff}
use ausweis_app2_omapi.Prelude.{
  Bool, true, false, if◌then◌else◌, String, Option, none, some, [], ◌∷◌, ◌≡◌, refl, ap, sym, ◌∙◌,
}
use mathlib.Core.Bool.{false≢true}
use ausweis_app2_omapi.Remote.Server.Connections.{
  CardConnection, Connections, find_connection, is_some, insert_connection, remove_connection,
  stop_secure_messaging,
}

pub str_eq_refl : (s : String) → str_eq s s ≡ true
str_eq_refl s = (eq_iff s s).1 refl

pub str_eq_path : (s t : String) → str_eq s t ≡ true → s ≡ t
str_eq_path s t h = (eq_iff s t).0 h

abbrev choose : Bool → Option CardConnection → Option CardConnection → Option CardConnection
choose b x y = if b then x else y

abbrev map_choice : Bool → Connections → Connections → Connections
map_choice b x y = if b then x else y

-- Where another key is found, a key is not.
str_eq_other : (s t u : String) → str_eq s t ≡ true → str_eq s u ≡ str_eq t u
str_eq_other s t u h = ap (λ x. str_eq x u) (str_eq_path s t h)

absorb : (b : Bool) (x y z : Option CardConnection) → choose b x (choose b y z) ≡ choose b x z
absorb true x y z = refl
absorb false x y z = refl

swap :
    (a b : Bool) (x y z : Option CardConnection)
    → (a ≡ true → b ≡ false)
    → choose b y (choose a x z) ≡ choose a x (choose b y z)
swap true true x y z h = elim (false≢true (sym (h refl))) [ ]
swap true false x y z h = refl
swap false true x y z h = refl
swap false false x y z h = refl

disjoint : (s t u : String) → str_eq s t ≡ false → str_eq t u ≡ true → str_eq s u ≡ false
disjoint s t u h k = ap (str_eq s) (sym (str_eq_path t u k)) ∙ h

-- One step of the insertion.
placed :
    (handle : String) (c : CardConnection) (p : String × CardConnection) (l : Connections)
    (key : String) (m : Connections) (b w : Bool)
    → find_connection m key ≡ choose (str_eq handle key) (some c) (find_connection l key)
    → str_eq p.0 handle ≡ b
    → find_connection
        (map_choice b ((handle, c) ∷ l) (map_choice w ((handle, c) ∷ p ∷ l) (p ∷ m)))
        key
      ≡ choose (str_eq handle key) (some c) (find_connection (p ∷ l) key)
unfolding find_connection
placed handle c p l key m true w rest h = sym (
    ap (λ b. choose (str_eq handle key) (some c) (choose b (some p.1) (find_connection l key)))
      (str_eq_other p.0 handle key h)
    ∙ absorb (str_eq handle key) (some c) (some p.1) (find_connection l key))
placed handle c p l key m false true rest h = refl
placed handle c p l key m false false rest h =
    ap (choose (str_eq p.0 key) (some p.1)) rest
    ∙ swap (str_eq handle key) (str_eq p.0 key) (some c) (some p.1) (find_connection l key)
        (disjoint p.0 handle key h)

pub find_connection-insert_connection :
    (before : String → String → Bool) (handle : String) (c : CardConnection) (l : Connections)
    (key : String)
    → find_connection (insert_connection before handle c l) key
      ≡ choose (str_eq handle key) (some c) (find_connection l key)
unfolding find_connection insert_connection
find_connection-insert_connection before handle c [] key = refl
find_connection-insert_connection before handle c (p ∷ l) key =
    let rest : find_connection (insert_connection before handle c l) key
        ≡ choose (str_eq handle key) (some c) (find_connection l key) =
      find_connection-insert_connection before handle c l key in
    placed handle c p l key (insert_connection before handle c l) (str_eq p.0 handle)
      (before handle p.0) rest refl

both_none : (b : Bool) → none ≡ choose b none none
both_none true = refl
both_none false = refl

-- One step of the removal.
skipped :
    (handle : String) (p : String × CardConnection) (l : Connections) (key : String)
    (m : Connections) (b : Bool)
    → find_connection m key ≡ choose (str_eq handle key) none (find_connection l key)
    → str_eq p.0 handle ≡ b
    → find_connection (map_choice b m (p ∷ m)) key
      ≡ choose (str_eq handle key) none (find_connection (p ∷ l) key)
unfolding find_connection
skipped handle p l key m true rest h =
    rest
    ∙ sym (
        ap (λ b. choose (str_eq handle key) none (choose b (some p.1) (find_connection l key)))
          (str_eq_other p.0 handle key h)
        ∙ absorb (str_eq handle key) none (some p.1) (find_connection l key))
skipped handle p l key m false rest h =
    ap (choose (str_eq p.0 key) (some p.1)) rest
    ∙ swap (str_eq handle key) (str_eq p.0 key) none (some p.1) (find_connection l key)
        (disjoint p.0 handle key h)

pub find_connection-remove_connection :
    (l : Connections) (handle key : String)
    → find_connection (remove_connection l handle) key
      ≡ choose (str_eq handle key) none (find_connection l key)
unfolding find_connection remove_connection
find_connection-remove_connection [] handle key = both_none (str_eq handle key)
find_connection-remove_connection (p ∷ l) handle key =
    skipped handle p l key (remove_connection l handle) (str_eq p.0 handle)
      (find_connection-remove_connection l handle key) refl

abbrev without_channel : CardConnection → CardConnection
without_channel c = record c { secure_messaging = false }

abbrev through : CardConnection → Option CardConnection → Option CardConnection
through d (some c) = some (without_channel c)
through d none = some (without_channel d)

stopped_step :
    (p : String × CardConnection) (l : Connections) (handle : String) (c : CardConnection)
    (m : Connections) (b : Bool)
    → str_eq p.0 handle ≡ b
    → (find_connection l handle ≡ some c → find_connection m handle ≡ some (without_channel c))
    → choose b (some p.1) (find_connection l handle) ≡ some c
    → find_connection (map_choice b ((p.0, without_channel p.1) ∷ l) (p ∷ m)) handle
      ≡ some (without_channel c)
unfolding find_connection
stopped_step p l handle c m true e f h =
    ap (λ b. choose b (some (without_channel p.1)) (find_connection l handle)) e ∙ ap (through c) h
stopped_step p l handle c m false e f h =
    ap (λ b. choose b (some p.1) (find_connection m handle)) e ∙ f h

-- The connection whose channel is stopped is found as it was, without the channel.
pub find_connection-stop_secure_messaging :
    (l : Connections) (handle : String) (c : CardConnection)
    → find_connection l handle ≡ some c
    → find_connection (stop_secure_messaging l handle) handle
      ≡ some (record c { secure_messaging = false })
unfolding find_connection stop_secure_messaging
find_connection-stop_secure_messaging [] handle c h = elim (false≢true (ap is_some h)) [ ]
find_connection-stop_secure_messaging (p ∷ l) handle c h =
    stopped_step p l handle c (stop_secure_messaging l handle) (str_eq p.0 handle) refl
      (find_connection-stop_secure_messaging l handle c) h
