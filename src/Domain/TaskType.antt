-- ===== src/Domain/TaskType.antt =====
-- `TaskType` of internal/domain/types.go.
use qtip_challenge.Base.{String, Bool, ◌||◌, str_eq, if◌then◌else◌}
use qtip_challenge.Base.Int.{ℤ, pos}

-- A string type in the source: any text is a value of it.
abbrev pub TaskType : Type 0
TaskType = String

abbrev pub registration : TaskType
registration = "registration"

abbrev pub password_reset : TaskType
password_reset = "password_reset"

abbrev pub billing : TaskType
billing = "billing"

abbrev pub marketing : TaskType
marketing = "marketing"

abbrev pub security : TaskType
security = "security"

abbrev pub transactional : TaskType
transactional = "transactional"

unfoldable pub is_valid : TaskType → Bool
is_valid t =
    str_eq t registration
    || str_eq t password_reset
    || str_eq t billing
    || str_eq t marketing
    || str_eq t security
    || str_eq t transactional

unfoldable pub default_max_attempts : TaskType → ℤ
default_max_attempts t =
    if str_eq t security
    then pos 7
    else if str_eq t transactional
    then pos 5
    else if str_eq t marketing
    then pos 3
    else pos 5
