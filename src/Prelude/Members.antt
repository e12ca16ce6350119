-- ===== src/Prelude/Members.antt =====
-- What a test on a member of a JSON document says of the member.
use mathlib.Core.Bool.{true}
use mathlib.Core.Option.{Option, none, some}
use mathlib.Core.Path.{◌≡◌, ap}
use liqi_platform.Prelude.{arith, eq_of_beq, string_eq, String}
use liqi_platform.Prelude.Json.{Json, null, bool, int, float, obj, str, arr, is_text}

pub is_text-true : (a : String) (v : Option Json) → is_text a v ≡ true → v ≡ some (str a)
is_text-true a (some (str t)) h = ap (λ x. some (str x)) (eq_of_beq h)
is_text-true a (some null) h = absurd (ground arith)
is_text-true a (some (bool b)) h = absurd (ground arith)
is_text-true a (some (int n)) h = absurd (ground arith)
is_text-true a (some (float m k)) h = absurd (ground arith)
is_text-true a (some (arr xs)) h = absurd (ground arith)
is_text-true a (some (obj fs)) h = absurd (ground arith)
is_text-true a none h = absurd (ground arith)
