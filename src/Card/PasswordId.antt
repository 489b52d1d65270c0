-- ===== src/Card/PasswordId.antt =====
-- src/card/base/SmartCardDefinitions.h: the password of a PACE channel.
use ausweis_app2_omapi.Prelude.{ℕ, Bool, ◌==◌}

pub data PacePasswordId : Type 0 where
  unknown pace_mrz pace_can pace_pin pace_puk : PacePasswordId

-- The value of the enumerator.
unfoldable pub password_id_value : PacePasswordId → ℕ
password_id_value unknown = 0
password_id_value pace_mrz = 1
password_id_value pace_can = 2
password_id_value pace_pin = 3
password_id_value pace_puk = 4

unfoldable pub password_id_eq : PacePasswordId → PacePasswordId → Bool
unfolding password_id_value
password_id_eq a b = password_id_value a == password_id_value b
