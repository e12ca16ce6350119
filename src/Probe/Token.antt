-- ===== src/Probe/Token.antt =====
-- `load_probe_token`, `_read_token_file` and `_validate_probe_token` of platform_probe.py. The
-- environment and the files are parameters, as are the two directions of UTF-8.
use Prim.Native.Char.{Char, code, len_utf8}
use liqi_platform.Prelude.{
  ℕ, ◌+◌, String, ◌<>◌, Bool, true, false, not, ◌&&◌, ◌||◌, Option, none, some, List, leb, nat_beq,
  contains, nat_eq, length, if◌then◌else◌, Result, ok, err,
}
use liqi_platform.Prelude.Texts.{size, starts_with, suffix, occurs}
use liqi_platform.Probe.Recorder.{Problem, blocked}

-- What is at a path: no file, one that cannot be read, or its bytes.
pub data File : Type 0 where
  no_file : File
  unreadable : File
  bytes : List ℕ → File

pub record Source : Type 0 where
  pub environ : String → Option String
  pub file : String → File
  -- `bytes.decode("utf-8")`
  pub utf8 : List ℕ → Option String

abbrev invalid : String → Problem
invalid = blocked "probe_auth_token_invalid"

abbrev missing : String → Problem
missing = blocked "probe_auth_token_missing"

abbrev pub bad_reference : String → Problem
bad_reference = blocked "probe_auth_token_reference_invalid"

-- `len(token.encode("utf-8"))`
unfoldable pub utf8_size : String → ℕ
utf8_size String.[] = 0
utf8_size (String.◌∷◌ c s) = len_utf8 c + utf8_size s

abbrev pub between : ℕ → ℕ → ℕ → Bool
between lo hi n = leb lo n && leb n hi

unfoldable pub validate_probe_token : String → Result Problem String
unfolding utf8_size
validate_probe_token token =
    if not (between 1 8192 (utf8_size token)) || occurs "\r" token || occurs "\n" token
    then err (invalid "probe token must be one bounded UTF-8 line")
    else ok token

abbrev is_line_end : Char → Bool
is_line_end c = nat_beq (code c) 10 || nat_beq (code c) 13

abbrev is_nothing : String → Bool
is_nothing String.[] = true
is_nothing _ = false

-- `s.rstrip("\r\n")`
unfoldable pub strip_line_ends : String → String
strip_line_ends String.[] = ""
strip_line_ends (String.◌∷◌ c s) =
    let rest = strip_line_ends s in
    if is_line_end c && is_nothing rest then "" else String.◌∷◌ c rest

abbrev pub decoded : Option String → Result Problem String
decoded none = err (invalid "probe token materialized file is not UTF-8")
decoded (some text) = validate_probe_token (strip_line_ends text)

abbrev all_chars : (ℕ → Bool) → String → Bool
all_chars p String.[] = true
all_chars p (String.◌∷◌ c s) = p (code c) && all_chars p s

abbrev is_upper : ℕ → Bool
is_upper = between b'A' b'Z'

abbrev is_digit : ℕ → Bool
is_digit = between b'0' b'9'

-- `[A-Za-z0-9._-]{1,128}`
abbrev pub is_credential_name : String → Bool
is_credential_name name =
    between 1 128 (size name)
    && all_chars
        (λ n.
          is_upper n
          || between b'a' b'z' n
          || is_digit n
          || nat_beq n b'.'
          || nat_beq n b'_'
          || nat_beq n b'-')
        name

-- `[A-Z][A-Z0-9_]{1,63}`
abbrev pub is_variable_name : String → Bool
is_variable_name String.[] = false
is_variable_name (String.◌∷◌ c s) =
    is_upper (code c)
    && between 1 63 (size s)
    && all_chars (λ n. is_upper n || is_digit n || nat_beq n b'_') s

-- `a or b` of two environment values: an empty one is not taken.
abbrev pub first_set : Option String → Option String → Option String
first_set (some (String.◌∷◌ c s)) b = some (String.◌∷◌ c s)
first_set _ b = b

module _ (w : Source) where
  abbrev pub read_bytes : List ℕ → Result Problem String
  read_bytes payload =
      if not (between 1 8193 (length payload)) || contains payload 0
      then err (invalid "probe token materialized file is invalid")
      else decoded (w.utf8 payload)

  abbrev pub read_file : File → Result Problem String
  read_file (bytes payload) = read_bytes payload
  read_file no_file = err (missing "probe token materialized file is unavailable")
  read_file unreadable = err (missing "probe token materialized file is unavailable")

  unfoldable pub read_token_file : String → Result Problem String
  read_token_file path =
      if not (starts_with "/" path)
      then err (missing "probe token materialized file is unavailable")
      else read_file (w.file path)

  abbrev pub in_directory : String → Option String → Result Problem String
  in_directory name (some (String.◌∷◌ c directory)) =
      read_token_file (String.◌∷◌ c directory <> "/" <> name)
  in_directory name _ =
      err (missing "credential directory is unavailable for the probe token reference")

  abbrev pub from_credential : String → Result Problem String
  from_credential name =
      if is_credential_name name
      then in_directory name
          (first_set (w.environ "CREDENTIALS_DIRECTORY") (w.environ "LIQI_CREDENTIALS_DIRECTORY"))
      else err (bad_reference "invalid systemd credential name")

  abbrev pub set_value : Option String → Result Problem String
  set_value none = err (missing "probe token reference environment value is unavailable")
  set_value (some value) = validate_probe_token value

  abbrev pub from_variable : String → Result Problem String
  from_variable name =
      if is_variable_name name
      then set_value (w.environ name)
      else err (bad_reference "invalid probe token environment reference")

  unfoldable pub from_reference : String → Result Problem String
  from_reference reference =
      if starts_with "file://" reference
      then read_token_file (suffix 7 reference)
      else if starts_with "systemd-credential://" reference
      then from_credential (suffix 21 reference)
      else if starts_with "env://" reference
      then from_variable (suffix 6 reference)
      else err (bad_reference "probe token reference must use file, systemd-credential, or env")

  unfoldable pub inline_token : Option String → Result Problem String
  inline_token none =
      err (missing "LIQI_PROBE_AUTH_TOKEN_REF is required for the live platform probe")
  inline_token (some token) = validate_probe_token token

  -- An empty reference is none.
  abbrev pub referenced : Option String → Result Problem String
  referenced (some (String.◌∷◌ c reference)) = from_reference (String.◌∷◌ c reference)
  referenced _ = inline_token (w.environ "LIQI_PROBE_AUTH_TOKEN")

  unfoldable pub load_probe_token : Result Problem String
  load_probe_token = referenced (w.environ "LIQI_PROBE_AUTH_TOKEN_REF")
