-- ===== src/Recovery/Values.antt =====
-- What recovery_contract.py takes from outside, its exceptions, and Python's operations on values that
-- may raise.
use liqi_platform.Prelude.{
  ℕ, String, ◌<>◌, Bool, true, false, Option, none, some, List, [], ◌∷◌, map, is_empty,
  if◌then◌else◌, Result, ok, err,
}
use liqi_platform.Prelude.Int.{ℤ}
use liqi_platform.Prelude.Texts.{replace, join}
use liqi_platform.Prelude.Json.{
  Json, null, bool, int, float, str, arr, obj, end, members, items, lookup, type_name, truthy,
  int_of,
}

-- An exception that `main` reports (`OSError`, `KeyError`, `TypeError`, `ValueError`), by its text, or
-- one that leaves `main`.
pub data Exc : Type 0 where
  handled : String → Exc
  escaping : String → Exc

module _ {A B : Type 0} where
  infixl 5 ◌>>=◌
  unfoldable pub ◌>>=◌ : Result Exc A → (A → Result Exc B) → Result Exc B
  ok a >>= f = f a
  err e >>= f = err e

infixl 5 ◌>>◌
abbrev pub ◌>>◌ : {B : Type 0} → Result Exc (Unit {0}) → Result Exc B → Result Exc B
m >> n = m >>= λ _. n

-- `if not condition: raise ValueError(text)`
abbrev pub require : Bool → String → Result Exc (Unit {0})
require true text = ok tt
require false text = err (handled text)

-- Instants are microseconds.
pub record World : Type 0 where
  -- `hashlib.sha256(...).hexdigest()`, `json.dumps(value, indent=2, sort_keys=True)` with its line
  -- feed, `json.loads` or the text of its error
  pub sha256 : String → String
  pub dumps : Json → String
  pub loads : String → Result String Json
  -- the rendered errors of a document against a schema of the repository
  pub schema_errors : String → Json → Result Exc (List String)
  -- `repr` and `str` of a JSON value, and `str` of a number
  pub repr : Json → String
  pub py_str : Json → String
  pub show : ℕ → String
  -- `datetime.fromtimestamp`, `datetime.fromisoformat`, and an instant's text in UTC
  pub from_timestamp : Json → Result Exc ℤ
  pub from_iso : String → Result Exc ℤ
  pub iso : ℤ → String
  -- what the clock shows once so many operations on files were made
  pub now : ℕ → ℤ
  -- `round(duration, 3)` of microseconds, in seconds
  pub rounded : ℕ → Json
  -- `uuid.uuid4().hex`, the `OSError` of the n-th operation on files, and what a failed write leaves
  pub token : String
  pub refusal : ℕ → Option String
  pub torn : ℕ → String

-- `value.get(key)`
abbrev pub member : String → Json → Result Exc (Option Json)
member k (obj fs) = ok (lookup k fs)
member k v = err (escaping ("'" <> type_name v <> "' object has no attribute 'get'"))

abbrev pub or_default : Json → Option Json → Json
or_default d (some v) = v
or_default d none = d

abbrev pub empty_object : Json
empty_object = obj end

-- `value.get(key, {})`
abbrev pub member_or_empty : String → Json → Result Exc Json
member_or_empty k v = member k v >>= λ o. ok (or_default empty_object o)

abbrev pub found : String → Option Json → Result Exc Json
found k (some v) = ok v
found k none = err (handled ("'" <> k <> "'"))

-- `value[key]`
abbrev pub index : String → Json → Result Exc Json
index k (obj fs) = found k (lookup k fs)
index k (arr xs) = err (handled "list indices must be integers or slices, not str")
index k (str s) = err (handled "string indices must be integers, not 'str'")
index k v = err (handled ("'" <> type_name v <> "' object is not subscriptable"))

abbrev characters : String → List Json
characters String.[] = []
characters (String.◌∷◌ c s) = str (String.◌∷◌ c "") ∷ characters s

-- What `for item in value` goes through.
abbrev pub iterate : Json → Result Exc (List Json)
iterate (arr xs) = ok (items xs)
iterate (obj fs) = ok (map (λ m. str m.0) (members fs))
iterate (str s) = ok (characters s)
iterate v = err (handled ("'" <> type_name v <> "' object is not iterable"))

-- A missing value reads as `None`.
abbrev pub or_null : Option Json → Json
or_null (some v) = v
or_null none = null

-- `value or {}`
abbrev pub or_empty : Option Json → Json
or_empty o = if truthy o then or_null o else empty_object

module _ (w : World) where
  abbrev int_problem : Json → Exc
  int_problem (str s) = handled ("invalid literal for int() with base 10: " <> w.repr (str s))
  int_problem v = handled (
      "int() argument must be a string, a bytes-like object or a real number, not '"
      <> type_name v
      <> "'")

  -- `int(value)`
  unfoldable pub to_int : Json → Result Exc ℤ
  unfolding int_of
  to_int v = elim (int_of (some v)) [ some n ↦ ok n | none ↦ err (int_problem v) ]

  -- `validate`
  unfoldable pub validate : String → Json → Result Exc (Unit {0})
  unfolding join
  validate schema value = do
    errors ← w.schema_errors schema value
    require (is_empty errors) (schema <> " validation failed: " <> join "; " errors)

  abbrev from_text : String → Result Exc ℤ
  from_text s = w.from_iso (replace "Z" "+00:00" s)

  abbrev pub parse_time : Json → Result Exc ℤ
  parse_time (str s) = from_text s
  parse_time v = err (escaping ("'" <> type_name v <> "' object has no attribute 'replace'"))

  -- `timestamp`
  unfoldable pub timestamp : Json → Result Exc String
  unfolding replace
  timestamp (int n) = w.from_timestamp (int n) >>= λ t. ok (w.iso t)
  timestamp (bool b) = w.from_timestamp (bool b) >>= λ t. ok (w.iso t)
  timestamp (float m k) = w.from_timestamp (float m k) >>= λ t. ok (w.iso t)
  timestamp (str (String.◌∷◌ c s)) = from_text (String.◌∷◌ c s) >>= λ t. ok (w.iso t)
  timestamp v = err (handled ("invalid timestamp: " <> w.repr v))
