-- ===== src/Probe/TokenExamples.antt =====
-- A probe token from a file, at concrete files.
use liqi_platform.Prelude.{
  String, Option, none, some, [], ◌∷◌, ◌==◌, string_eq, if◌then◌else◌, refl,
}
use liqi_platform.Prelude.Texts.{suffix}
use liqi_platform.Probe.Token.{
  File, no_file, bytes, Source, utf8_size, validate_probe_token, strip_line_ends, read_token_file,
  from_reference, inline_token, load_probe_token,
}
use liqi_platform.Probe.Credentials.{IsToken, load_probe_token-IsToken}

abbrev environ : String → Option String
environ name =
    if name == "LIQI_PROBE_AUTH_TOKEN_REF"
    then some "systemd-credential://probe"
    else if name == "CREDENTIALS_DIRECTORY"
    then some "/run/c"
    else none

abbrev file : String → File
file path = if path == "/run/c/probe" then bytes (97 ∷ 98 ∷ 10 ∷ []) else no_file

abbrev source : Source
source = record { environ = environ; file = file; utf8 = λ b. some "ab\n" }

load_probe_token-IsToken_example : IsToken "ab"
unfolding load_probe_token from_reference inline_token read_token_file validate_probe_token
    utf8_size strip_line_ends suffix
load_probe_token-IsToken_example = load_probe_token-IsToken source "ab" refl
