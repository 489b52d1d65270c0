-- ===== src/Card/Chat/Rights.antt =====
-- The abstract view of a template, a role and a set of rights, and the operations on the two.
use ausweis_app2_omapi.Prelude.{
  ℕ, ◌<◌, Bool, true, false, if◌then◌else◌, Option, some, List, [], ◌∷◌, Bytes, ◌>>=◌, ◌≡◌, refl,
  ap, ◌∙◌, subst, arith,
}
use ausweis_app2_omapi.Prelude.Bits.{test_bit, write_bit, test_bit-write_bit}
use ausweis_app2_omapi.Card.AccessRight.{AccessRight, AccessRole, right_value, right_eq}
use ausweis_app2_omapi.Card.Chat.{
  contains, has_access_right, get_access_role, set_template_bit, set_access_role, set_access_right,
  set_access_rights, remove_access_right, remove_rights, remove_all_access_rights,
}
use ausweis_app2_omapi.Card.Chat.Number.{Holds, Writes}
use ausweis_app2_omapi.Card.Chat.Places.{set_template_bit-Holds}
use ausweis_app2_omapi.Card.Chat.Laws.{
  right_value_bound, contains-get_access_rights, role_of_bits, get_access_role-Holds,
}

pub record RightSet : Type 0 where
  pub role : AccessRole
  pub has : AccessRight → Bool

pub data Operation : Type 0 where
  grant : AccessRight → Operation
  grant_all : List AccessRight → Operation
  revoke : AccessRight → Operation
  revoke_all : Operation
  appoint : AccessRole → Operation

-- What an operation does to the bytes, and what it means.
unfoldable pub apply : Operation → Bytes → Option Bytes
apply (grant r) t = set_access_right r t
apply (grant_all l) t = set_access_rights l t
apply (revoke r) t = remove_access_right r t
apply revoke_all t = remove_all_access_rights t
apply (appoint role) t = set_access_role role t

abbrev with_role : AccessRole → RightSet → RightSet
with_role AccessRole.unknown s = s
with_role role s = record s { role = role }

unfoldable pub meaning : Operation → RightSet → RightSet
unfolding right_eq contains
meaning (grant r) s = record s { has = λ x. if right_eq r x then true else s.has x }
meaning (grant_all l) s = record s { has = λ x. if contains l x then true else s.has x }
meaning (revoke r) s = record s { has = λ x. if right_eq r x then false else s.has x }
meaning revoke_all s = record s { has = λ x. false }
meaning (appoint role) s = with_role role s

unfoldable pub apply_all : List Operation → Bytes → Option Bytes
unfolding apply
apply_all [] t = some t
apply_all (o ∷ l) t = do u ← apply o t; apply_all l u

unfoldable pub meaning_of_all : List Operation → RightSet → RightSet
unfolding meaning
meaning_of_all [] s = s
meaning_of_all (o ∷ l) s = meaning_of_all l (meaning o s)

unfoldable pub view : Bytes → RightSet
unfolding get_access_role has_access_right
view t = record { role = get_access_role t; has = λ r. has_access_right r t }

abbrev pub view_of_number : ℕ → RightSet
view_of_number n = record {
  role = role_of_bits (test_bit n 39) (test_bit n 38);
  has = λ r. test_bit n (right_value r);
}

pub view-Holds : (t : Bytes) (n : ℕ) → Holds t n → view t ≡ view_of_number n
unfolding view has_access_right
view-Holds t n h = λ i. record {
  role = get_access_role-Holds t n h i;
  has = λ r. contains-get_access_rights t n r h i;
}

-- An operation runs, and the number of its result has the meaning.
pub record Runs (o : Option Bytes) (s : RightSet) : Type 0 where
  pub bytes : Bytes
  pub number : ℕ
  pub runs : o ≡ some bytes
  pub holds : Holds bytes number
  pub means : view_of_number number ≡ s

pub write_right :
    (t : Bytes) (n : ℕ) (r : AccessRight) (on : Bool)
    → Holds t n
    → Runs (set_template_bit (right_value r) on t) (record (view_of_number n) {
      has = λ x. if right_eq r x then on else test_bit n (right_value x);
    })
unfolding right_eq
write_right t n r on h =
    let small : right_value r < 38 = right_value_bound r in
    let w : Writes t n (right_value r) on =
      set_template_bit-Holds (right_value r) on t n (omega arith) h in
    let m : ℕ = write_bit n (right_value r) on in
    let high : test_bit m 39 ≡ test_bit n 39 =
      test_bit-write_bit (right_value r) 39 n on ∙ ground arith in
    let low : test_bit m 38 ≡ test_bit n 38 =
      test_bit-write_bit (right_value r) 38 n on ∙ ground arith in
    record {
      bytes = w.0;
      number = m;
      runs = w.1;
      holds = w.2;
      means = λ i. record {
        role = role_of_bits (high i) (low i);
        has = λ x. test_bit-write_bit (right_value r) (right_value x) n on i;
      };
    }

-- One operation behind another.
pub then_Runs :
    (o : Option Bytes) (s s' : RightSet) (f : Bytes → Option Bytes) (a : Runs o s)
    → Runs (f a.bytes) s'
    → Runs (do u ← o; f u) s'
then_Runs o s s' f a b = record {
  bytes = b.bytes;
  number = b.number;
  runs = ap (λ p. p >>= f) a.runs ∙ b.runs;
  holds = b.holds;
  means = b.means;
}

-- A loop that writes the bits of the rights of a list.
unfoldable pub write_all : Bool → List AccessRight → Bytes → Option Bytes
unfolding set_template_bit
write_all on [] t = some t
write_all on (r ∷ l) t = do u ← set_template_bit (right_value r) on t; write_all on l u

abbrev pub written : Bool → List AccessRight → RightSet → RightSet
written on l s = record s { has = λ x. if contains l x then on else s.has x }

twice :
    (c e on b : Bool)
    → (if c then on else if e then on else b) ≡ (if (if e then true else c) then on else b)
twice true true on b = refl
twice true false on b = refl
twice false true on b = refl
twice false false on b = refl

written-cons :
    (on : Bool) (r : AccessRight) (l : List AccessRight) (s : RightSet)
    → written on l (record s { has = λ x. if right_eq r x then on else s.has x })
      ≡ written on (r ∷ l) s
unfolding contains
written-cons on r l s =
    λ i. record s { has = λ x. twice (contains l x) (right_eq r x) on (s.has x) i }

pub write_all-Runs :
    (on : Bool) (l : List AccessRight) (t : Bytes) (n : ℕ)
    → Holds t n
    → Runs (write_all on l t) (written on l (view_of_number n))
unfolding write_all contains
write_all-Runs on [] t n h = record { bytes = t; number = n; runs = refl; holds = h; means = refl }
write_all-Runs on (r ∷ l) t n h =
    let s : RightSet = view_of_number n in
    let first : Runs (set_template_bit (right_value r) on t)
        (record s { has = λ x. if right_eq r x then on else s.has x }) =
      write_right t n r on h in
    let rest : Runs (write_all on l first.bytes) (written on l (view_of_number first.number)) =
      write_all-Runs on l first.bytes first.number first.holds in
    then_Runs (set_template_bit (right_value r) on t)
      (record s { has = λ x. if right_eq r x then on else s.has x }) (written on (r ∷ l) s)
      (write_all on l) first
      (subst (Runs (write_all on l first.bytes))
        (ap (written on l) first.means ∙ written-cons on r l s) rest)

pub set_access_rights-write_all :
    (l : List AccessRight) (t : Bytes) → set_access_rights l t ≡ write_all true l t
unfolding set_access_rights write_all set_access_right
set_access_rights-write_all [] t = refl
set_access_rights-write_all (r ∷ l) t =
    ap (λ (f : Bytes → Option Bytes). (do u ← set_template_bit (right_value r) true t; f u))
      (λ i u. set_access_rights-write_all l u i)

pub remove_rights-write_all :
    (l : List AccessRight) (t : Bytes) → remove_rights l t ≡ write_all false l t
unfolding remove_rights write_all remove_access_right
remove_rights-write_all [] t = refl
remove_rights-write_all (r ∷ l) t =
    ap (λ (f : Bytes → Option Bytes). (do u ← set_template_bit (right_value r) false t; f u))
      (λ i u. remove_rights-write_all l u i)
