-- ===== src/Probe/Credentials.antt =====
-- `load_probe_token` of platform_probe.py: what a token that it returns is.
use liqi_platform.Prelude.{
  String, Bool, true, false, not, ◌&&◌, ◌||◌, Option, none, some, ◌≡◌, refl, subst, arith, Result,
  ok, err, leb, ok-injective, nat_eq, if◌then◌else◌,
}
use liqi_platform.Prelude.Texts.{occurs, starts_with, suffix}
use liqi_platform.Probe.Recorder.{Problem}
use liqi_platform.Probe.Token.{
  File, no_file, unreadable, bytes, Source, utf8_size, validate_probe_token, decoded,
  read_token_file, read_file, set_value, referenced, bad_reference, in_directory, from_credential,
  from_variable, from_reference, inline_token, load_probe_token, is_credential_name,
  is_variable_name, first_set,
}

-- One line of 1 to 8192 bytes.
pub record IsToken (t : String) : Type 0 where
  pub bounded : (leb 1 (utf8_size t) && leb (utf8_size t) 8192) ≡ true
  pub no_return : occurs "\r" t ≡ false
  pub no_newline : occurs "\n" t ≡ false

record Yields (r : Result Problem String) : Type 0 where
  yields : (t : String) → r ≡ ok t → IsToken t

-- The branches of a conditional, each of which yields a token or raises.
if-Yields :
    (c : Bool) (a b : Result Problem String) → Yields a → Yields b → Yields (if c then a else b)
if-Yields true a b x y = x
if-Yields false a b x y = y

err-Yields : (e : Problem) → Yields (err e)
err-Yields e = record { yields = λ t h. absurd (ground arith) }

guarded-IsToken :
    (a b c : Bool) (e : Problem) (s t : String)
    → (if not a || b || c then err e else ok s) ≡ ok t
    → (s ≡ t) × (a ≡ true) × (b ≡ false) × (c ≡ false)
guarded-IsToken false b c e s t h = absurd (ground arith)
guarded-IsToken true true c e s t h = absurd (ground arith)
guarded-IsToken true false true e s t h = absurd (ground arith)
guarded-IsToken true false false e s t h = (ok-injective h, refl, refl, refl)

validate-Yields : (s : String) → Yields (validate_probe_token s)
unfolding validate_probe_token
validate-Yields s = record {
  yields = λ t h.
      let (q, a, b, c) = guarded-IsToken _ _ _ _ s t h in
      subst IsToken q (record { bounded = a; no_return = b; no_newline = c });
}

decoded-Yields : (o : Option String) → Yields (decoded o)
decoded-Yields none = err-Yields _
decoded-Yields (some text) = validate-Yields _

module _ (w : Source) where
  read_file-Yields : (f : File) → Yields (read_file w f)
  read_file-Yields (bytes payload) = if-Yields _ _ _ (err-Yields _) (decoded-Yields _)
  read_file-Yields no_file = err-Yields _
  read_file-Yields unreadable = err-Yields _

  read_token_file-Yields : (path : String) → Yields (read_token_file w path)
  unfolding read_token_file
  read_token_file-Yields path = if-Yields _ _ _ (err-Yields _) (read_file-Yields (w.file path))

  in_directory-Yields : (name : String) (d : Option String) → Yields (in_directory w name d)
  in_directory-Yields name none = err-Yields _
  in_directory-Yields name (some String.[]) = err-Yields _
  in_directory-Yields name (some (String.◌∷◌ c d)) = read_token_file-Yields _

  set_value-Yields : (v : Option String) → Yields (set_value w v)
  set_value-Yields none = err-Yields _
  set_value-Yields (some value) = validate-Yields value

  from_credential-Yields : (name : String) → Yields (from_credential w name)
  from_credential-Yields name =
      if-Yields (is_credential_name name) _ _
        (in_directory-Yields name
          (first_set (w.environ "CREDENTIALS_DIRECTORY") (w.environ "LIQI_CREDENTIALS_DIRECTORY")))
        (err-Yields (bad_reference "invalid systemd credential name"))

  from_variable-Yields : (name : String) → Yields (from_variable w name)
  from_variable-Yields name =
      if-Yields (is_variable_name name) _ _ (set_value-Yields (w.environ name))
        (err-Yields (bad_reference "invalid probe token environment reference"))

  from_reference-Yields : (r : String) → Yields (from_reference w r)
  unfolding from_reference
  from_reference-Yields r =
      if-Yields (starts_with "file://" r) _ _ (read_token_file-Yields (suffix 7 r)) (
        if-Yields (starts_with "systemd-credential://" r) _ _ (from_credential-Yields (suffix 21 r))
          (if-Yields (starts_with "env://" r) _ _ (from_variable-Yields (suffix 6 r)) (
            err-Yields
              (bad_reference "probe token reference must use file, systemd-credential, or env"))))

  inline_token-Yields : (v : Option String) → Yields (inline_token w v)
  unfolding inline_token
  inline_token-Yields none = err-Yields _
  inline_token-Yields (some token) = validate-Yields token

  referenced-Yields : (r : Option String) → Yields (referenced w r)
  referenced-Yields none = inline_token-Yields _
  referenced-Yields (some String.[]) = inline_token-Yields _
  referenced-Yields (some (String.◌∷◌ c r)) = from_reference-Yields _

  -- Wherever a token comes from, a file, a credential or a variable, one that is returned is a single
  -- line of 1 to 8192 bytes.
  pub load_probe_token-IsToken : (t : String) → load_probe_token w ≡ ok t → IsToken t
  unfolding load_probe_token
  load_probe_token-IsToken = (referenced-Yields (w.environ "LIQI_PROBE_AUTH_TOKEN_REF")).yields
