-- ===== src/Card/Chat/Refinement.antt =====
-- Every operation on a template does to its role and rights what the operation means.
use ausweis_app2_omapi.Prelude.{
  ℕ, ◌<◌, Bool, true, false, if◌then◌else◌, ◌==◌, some, List, [], ◌∷◌, Bytes, length, All, ◌>>=◌,
  ◌≡◌, refl, ap, sym, ◌∙◌, subst, arith, zero, suc, get_or,
}
use ausweis_app2_omapi.Prelude.Bits.{test_bit, write_bit, test_bit-write_bit}
use ausweis_app2_omapi.Card.AccessRight.{AccessRight, AccessRole, right_value}
use ausweis_app2_omapi.Card.Chat.{
  get_access_rights, set_template_bit, set_access_role, set_access_right, remove_access_right,
  remove_rights, remove_all_access_rights,
}
use ausweis_app2_omapi.Card.Chat.Number.{Holds, IsByte, five, number, Writes}
use ausweis_app2_omapi.Card.Chat.Places.{set_template_bit-Holds}
use ausweis_app2_omapi.Card.Chat.Laws.{right_value_bound, contains-get_access_rights, role_of_bits}
use ausweis_app2_omapi.Card.Chat.Rights.{
  Operation, apply, meaning, apply_all, meaning_of_all, view, view_of_number, view-Holds, Runs,
  write_right, then_Runs, written, write_all-Runs, set_access_rights-write_all,
  remove_rights-write_all, grant, grant_all, revoke, revoke_all, appoint,
}

none_left : (b : Bool) → (if b then false else b) ≡ false
none_left true = refl
none_left false = refl

-- The set of a template does not hold more than the rights whose bits are set.
revoked :
    (t : Bytes) (n : ℕ)
    → Holds t n
    → written false (get_access_rights t) (view_of_number n)
      ≡ record (view_of_number n) { has = λ x. false }
revoked t n h = λ i. record (view_of_number n) {
  has = λ x.
      (ap (λ b. if b then false else test_bit n (right_value x))
            (contains-get_access_rights t n x h)
          ∙ none_left (test_bit n (right_value x)))
        i;
}

untouched :
    (n : ℕ) (lower higher : Bool) (x : AccessRight)
    → test_bit (write_bit (write_bit n 38 lower) 39 higher) (right_value x)
      ≡ test_bit n (right_value x)
untouched n lower higher x =
    let small : right_value x < 38 = right_value_bound x in
    test_bit-write_bit 39 (right_value x) (write_bit n 38 lower) higher
    ∙ (let e : (if 39 == right_value x
              then higher
              else test_bit (write_bit n 38 lower) (right_value x))
            ≡ test_bit (write_bit n 38 lower) (right_value x) =
          ground arith in
        e)
    ∙ test_bit-write_bit 38 (right_value x) n lower
    ∙ ground arith

appoint_Runs :
    (lower higher : Bool) (t : Bytes) (n : ℕ)
    → Holds t n
    → Runs
        (do u ← set_template_bit 38 lower t; set_template_bit 39 higher u)
        (record (view_of_number n) { role = role_of_bits higher lower })
appoint_Runs lower higher t n h =
    let w : Writes t n 38 lower = set_template_bit-Holds 38 lower t n (omega arith) h in
    let m : ℕ = write_bit n 38 lower in
    let v : Writes w.0 m 39 higher = set_template_bit-Holds 39 higher w.0 m (omega arith) w.2 in
    let k : ℕ = write_bit m 39 higher in
    let low : test_bit k 38 ≡ lower =
      test_bit-write_bit 39 38 m higher ∙ test_bit-write_bit 38 38 n lower in
    record {
      bytes = v.0;
      number = k;
      runs = ap (λ p. p >>= set_template_bit 39 higher) w.1 ∙ v.1;
      holds = v.2;
      means = λ i. record {
        role = role_of_bits (test_bit-write_bit 39 39 m higher i) (low i);
        has = λ x. untouched n lower higher x i;
      };
    }

apply-Runs :
    (o : Operation) (t : Bytes) (n : ℕ)
    → Holds t n
    → Runs (apply o t) (meaning o (view_of_number n))
unfolding apply meaning set_access_right remove_access_right remove_all_access_rights
    set_access_role
apply-Runs (grant r) t n h = write_right t n r true h
apply-Runs (grant_all l) t n h =
    subst (λ p. Runs p (written true l (view_of_number n))) (sym (set_access_rights-write_all l t))
      (write_all-Runs true l t n h)
apply-Runs (revoke r) t n h = write_right t n r false h
apply-Runs revoke_all t n h = subst (Runs (remove_rights (get_access_rights t) t)) (revoked t n h) (
    subst (λ p. Runs p (written false (get_access_rights t) (view_of_number n)))
      (sym (remove_rights-write_all (get_access_rights t) t))
      (write_all-Runs false (get_access_rights t) t n h))
apply-Runs (appoint AccessRole.cvca) t n h = appoint_Runs true true t n h
apply-Runs (appoint AccessRole.dv_od) t n h = appoint_Runs false true t n h
apply-Runs (appoint AccessRole.dv_no_f) t n h = appoint_Runs true false t n h
apply-Runs (appoint AccessRole.at) t n h = appoint_Runs false false t n h
apply-Runs (appoint AccessRole.unknown) t n h = record {
  bytes = t;
  number = n;
  runs = refl;
  holds = h;
  means = refl;
}

apply_all-Runs :
    (l : List Operation) (t : Bytes) (n : ℕ)
    → Holds t n
    → Runs (apply_all l t) (meaning_of_all l (view_of_number n))
unfolding apply_all meaning_of_all
apply_all-Runs [] t n h = record { bytes = t; number = n; runs = refl; holds = h; means = refl }
apply_all-Runs (o ∷ l) t n h =
    let first : Runs (apply o t) (meaning o (view_of_number n)) = apply-Runs o t n h in
    let rest : Runs (apply_all l first.bytes) (meaning_of_all l (view_of_number first.number)) =
      apply_all-Runs l first.bytes first.number first.holds in
    then_Runs (apply o t) (meaning o (view_of_number n))
      (meaning_of_all l (meaning o (view_of_number n))) (apply_all l) first
      (subst (Runs (apply_all l first.bytes)) (ap (meaning_of_all l) first.means) rest)

-- A template as `decodeCallback` lets it pass: five bytes.
abbrev pub IsTemplate : Bytes → Type 0
IsTemplate t = (length t ≡ 5) × All IsByte t

five_of :
    (t : Bytes)
    → length t ≡ 5
    → t ≡ five (get_or t 0 0) (get_or t 1 0) (get_or t 2 0) (get_or t 3 0) (get_or t 4 0)
five_of [] h = grind arith
five_of (a ∷ []) h = grind arith
five_of (a ∷ b ∷ []) h = grind arith
five_of (a ∷ b ∷ c ∷ []) h = grind arith
five_of (a ∷ b ∷ c ∷ d ∷ []) h = grind arith
five_of (a ∷ b ∷ c ∷ d ∷ e ∷ []) h = refl
five_of (a ∷ b ∷ c ∷ d ∷ e ∷ f ∷ t) h = grind arith

IsByte-get_or : (t : Bytes) (i : ℕ) → All IsByte t → IsByte (get_or t i 0)
IsByte-get_or [] i h = omega arith
IsByte-get_or (x ∷ t) zero h = h.0
IsByte-get_or (x ∷ t) (suc i) h = IsByte-get_or t i h.1

Holds-IsTemplate : (t : Bytes) → IsTemplate t → (n : ℕ) × Holds t n
Holds-IsTemplate t h = (
  number (get_or t 0 0) (get_or t 1 0) (get_or t 2 0) (get_or t 3 0) (get_or t 4 0),
  record {
    b4 = get_or t 0 0;
    b3 = get_or t 1 0;
    b2 = get_or t 2 0;
    b1 = get_or t 3 0;
    b0 = get_or t 4 0;
    is_byte4 = IsByte-get_or t 0 h.1;
    is_byte3 = IsByte-get_or t 1 h.1;
    is_byte2 = IsByte-get_or t 2 h.1;
    is_byte1 = IsByte-get_or t 3 h.1;
    is_byte0 = IsByte-get_or t 4 h.1;
    is_five = five_of t h.0;
    is_number = refl;
  },
)

IsTemplate-Holds : (t : Bytes) (n : ℕ) → Holds t n → IsTemplate t
IsTemplate-Holds t n x =
    subst IsTemplate (sym x.is_five)
      (refl, (x.is_byte4, (x.is_byte3, (x.is_byte2, (x.is_byte1, (x.is_byte0, tt))))))

-- Whatever operations run on a template of five bytes, none writes outside it, the result is again five
-- bytes, and its role and rights are those that the operations mean: a right is in the set where it was
-- put last, the role is the one appointed last, and neither touches the other.
pub apply_all-meaning_of_all :
    (l : List Operation) (t : Bytes)
    → IsTemplate t
    → (u : Bytes) × ((apply_all l t ≡ some u)
        × (IsTemplate u × (view u ≡ meaning_of_all l (view t))))
apply_all-meaning_of_all l t h =
    let held : (n : ℕ) × Holds t n = Holds-IsTemplate t h in
    let r : Runs (apply_all l t) (meaning_of_all l (view_of_number held.0)) =
      apply_all-Runs l t held.0 held.1 in
    (
      r.bytes,
      (
        r.runs,
        (
          IsTemplate-Holds r.bytes r.number r.holds,
          view-Holds r.bytes r.number r.holds
              ∙ r.means
              ∙ ap (meaning_of_all l) (sym (view-Holds t held.0 held.1)),
        ),
      ),
    )
