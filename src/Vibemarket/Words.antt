-- ===== src/Vibemarket/Words.antt =====
-- The operators of boost's uint256_t, whose results are cut to 256 bits.
use machinepal.Prelude.{ℕ, ◌+◌, ◌-◌, ◌*◌, ◌/◌, ◌%◌, str, ◌==◌, if◌then◌else◌}
use machinepal.Result.{Result, ok, err, runtime_error}
use machinepal.Platform.{u256_mod}

abbrev pub add_u256 : ℕ → ℕ → ℕ
add_u256 a b = (a + b) % u256_mod

abbrev pub sub_u256 : ℕ → ℕ → ℕ
sub_u256 a b = (a + u256_mod - b) % u256_mod

abbrev pub mul_u256 : ℕ → ℕ → ℕ
mul_u256 a b = (a * b) % u256_mod

-- A division by zero throws std::overflow_error.
abbrev pub div_u256 : ℕ → ℕ → Result ℕ
div_u256 a b = if b == 0 then err (runtime_error (str "Division by zero.")) else ok (a / b)
