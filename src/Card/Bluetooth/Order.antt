-- ===== src/Card/Bluetooth/Order.antt =====
-- Parameters that are added in the order of their keys stay in that order.
use ausweis_app2_omapi.Prelude.{
  ℕ, ◌<◌, ◌≡◌, refl, ap, subst, ◌∙◌, List, [], ◌∷◌, ◌++◌, append-nil, append_assoc, arith, All, sym,
}
use ausweis_app2_omapi.Card.Bluetooth.{Parameter, Message, signed_key, insert_multi, add_parameter}

-- The keys ascend strictly.
abbrev pub IsAscending : List Parameter → Type 0
IsAscending [] = Unit
IsAscending (p ∷ l) = All (λ q. signed_key p < signed_key q) l × IsAscending l

All-middle {ℓ κ} :
    {A : Type ℓ} (P : A → Type κ) (l : List A) (a : A) (r : List A) → All P (l ++ a ∷ r) → P a
All-middle P [] a r all = all.0
All-middle P (x ∷ l) a r all = All-middle P l a r all.1

insert_multi-last :
    (l : List Parameter) (p : Parameter) (r : List Parameter)
    → IsAscending (l ++ p ∷ r)
    → insert_multi p l ≡ l ++ p ∷ []
unfolding insert_multi
insert_multi-last [] p r h = refl
insert_multi-last (q ∷ l) p r h =
    let below : signed_key q < signed_key p =
      All-middle (λ x. signed_key q < signed_key x) l p r h.0 in
    let rest : insert_multi p l ≡ l ++ p ∷ [] = insert_multi-last l p r h.1 in
    ground (arith, rest, below)

abbrev pub add_all : List Parameter → Message → Message
add_all [] m = m
add_all (p ∷ l) m = add_all l (add_parameter p m)

abbrev with_parameters : ℕ → List Parameter → Message
with_parameters id l = record { msg_id = id; parameters = l }

add_all-behind :
    (id : ℕ) (l r : List Parameter)
    → IsAscending (l ++ r)
    → add_all r (with_parameters id l) ≡ with_parameters id (l ++ r)
unfolding add_parameter
add_all-behind id l [] h = ap (with_parameters id) (sym (append-nil l))
add_all-behind id l (p ∷ r) h =
    let moved : (l ++ p ∷ []) ++ r ≡ l ++ p ∷ r = append_assoc l (p ∷ []) r in
    ap (λ k. add_all r (with_parameters id k)) (insert_multi-last l p r h)
    ∙ add_all-behind id (l ++ p ∷ []) r (subst IsAscending (sym moved) h)
    ∙ ap (with_parameters id) moved

pub add_all-ascending :
    (id : ℕ) (l : List Parameter)
    → IsAscending l
    → add_all l (with_parameters id []) ≡ with_parameters id l
add_all-ascending id l h = add_all-behind id [] l h
