-- ===== src/Core/Role.antt =====
-- The RBAC roles of app/core/security.py, in the order viewer, operator, admin.
use text.Mathlib.Text.{◌==◌ as str_eq}
use face_recognition.Prelude.{ℕ, Bool, Option, some, none, String, leb, if◌then◌else◌}

pub data Role : Type 0 where
  admin operator viewer : Role

-- The value of the enumeration.
unfoldable pub role_value : Role → String
role_value Role.admin = "admin"
role_value Role.operator = "operator"
role_value Role.viewer = "viewer"

-- `Role(value)`, which raises `ValueError` on any other text.
unfoldable pub role_of : String → Option Role
role_of value =
    if str_eq value "admin"
    then some Role.admin
    else if str_eq value "operator"
    then some Role.operator
    else if str_eq value "viewer"
    then some Role.viewer
    else none

abbrev pub level : Role → ℕ
level Role.viewer = 1
level Role.operator = 2
level Role.admin = 3

unfoldable pub satisfies : Role → Role → Bool
satisfies role required = leb (level required) (level role)
