-- ===== src/Policy.antt =====
-- rtld_linux.c, `init_rewrite_policy`. The environment is what `getenv` finds in it.
pub mod Laws
pub mod Stores
use ld_preload.Prelude.{
  Bool, true, false, not, ◌||◌, [], Option, none, some, ◌==◌, Bytes, codes, length, get_or, Outcome,
  fault, hang, refuse, ok, ◌>>=◌, ◌>>◌, refuse_if,
}
use ld_preload.Path.Clean.{path_max, is_absolute, clean_path_into}
use ld_preload.Path.Prefix.{Policy, or_nil}

abbrev pub from_name : Bytes
from_name = codes "LD_PRELOAD_REWRITE_FROM"

abbrev pub to_name : Bytes
to_name = codes "LD_PRELOAD_REWRITE_TO"

-- The first five assignments.
abbrev pub disabled_policy : Policy
disabled_policy = record { enabled = false; from_len = 0; to_len = 0; from = []; to = [] }

-- The last five.
abbrev pub policy_of : Bytes → Bytes → Policy
policy_of from to = record {
  enabled = true;
  from_len = length from;
  to_len = length to;
  from = from;
  to = to;
}

-- `env == NULL || env[0] == '\0'`
abbrev pub is_missing : Option Bytes → Bool
is_missing none = true
is_missing (some s) = get_or s 0 0 == 0

-- What the function comes to if it does not return early.
pub configure : Option Bytes → Option Bytes → Outcome Policy
configure from_env to_env = do
  refuse_if (is_missing from_env || is_missing to_env)
  refuse_if (not (is_absolute (or_nil from_env)) || not (is_absolute (or_nil to_env)))
  cleaned_from ← clean_path_into from_env (some path_max) path_max
  cleaned_to ← clean_path_into to_env (some path_max) path_max
  refuse_if (not (is_absolute cleaned_from) || not (is_absolute cleaned_to))
  ok (policy_of cleaned_from cleaned_to)

-- A `return;` leaves the policy as it was set first.
abbrev pub recover {ℓ} : {A : Type ℓ} → Outcome A → A → Outcome A
recover refuse d = ok d
recover fault d = fault
recover hang d = hang
recover (ok a) d = ok a

unfoldable pub init_rewrite_policy : (Bytes → Option Bytes) → Outcome Policy
unfolding configure
init_rewrite_policy getenv = recover (configure (getenv from_name) (getenv to_name)) disabled_policy
