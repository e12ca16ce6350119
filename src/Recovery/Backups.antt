-- ===== src/Recovery/Backups.antt =====
-- `select_backup` and `manifest_entries` of recovery_contract.py.
use liqi_platform.Prelude.{
  ℕ, String, ◌<>◌, Bool, true, false, Option, none, some, List, [], ◌∷◌, length, nat_eq,
  if◌then◌else◌, Result, ok, err,
}
use liqi_platform.Prelude.Texts.{
  cut, left_strip, word, after_word, remove_suffix, strip_stars, split_lines,
}
use liqi_platform.Prelude.Json.{Json, str, int, arr, items, object, is_text, from_list}
use liqi_platform.Recovery.Values.{
  Exc, handled, ◌>>=◌, World, member, member_or_empty, iterate, or_default, to_int,
}

-- What a backup is looked up by; an omitted argument is `None`.
pub record Selector : Type 0 where
  pub run_id : Option String
  pub backup_type : Option String
  pub label : Option String

-- `a is None or value == a`
abbrev pub agrees : Option String → Option Json → Bool
agrees none v = true
agrees (some a) v = is_text a v

abbrev pub annotated : Option String → Json → Result Exc Bool
annotated none backup = ok true
annotated (some id) backup = do
  annotation ← member_or_empty "annotation" backup
  value ← member "liqi-run-id" annotation
  ok (is_text id value)

-- `a and b`, where `b` may raise.
abbrev pub and_also : Bool → Result Exc Bool → Result Exc Bool
and_also true b = b
and_also false b = ok false

abbrev pub field_agrees : String → Option String → Json → Result Exc Bool
field_agrees key none backup = ok true
field_agrees key (some a) backup = member key backup >>= λ v. ok (is_text a v)

-- The three tests of the loop, in order.
unfoldable pub is_candidate : Selector → Json → Result Exc Bool
is_candidate s backup = do
  labelled ← field_agrees "label" s.label backup
  typed ← and_also labelled (field_agrees "type" s.backup_type backup)
  and_also typed (annotated s.run_id backup)

abbrev pub keep : Bool → Json → List Json → List Json
keep true backup rest = backup ∷ rest
keep false backup rest = rest

unfoldable pub candidates : Selector → List Json → Result Exc (List Json)
candidates s [] = ok []
candidates s (backup ∷ rest) = do
  chosen ← is_candidate s backup
  others ← candidates s rest
  ok (keep chosen backup others)

-- `next((item for item in info if item.get("name") == name), None)`
unfoldable pub find_stanza : String → List Json → Result Exc (Option Json)
find_stanza name [] = ok none
find_stanza name (item ∷ rest) =
    let later = find_stanza name rest in
    member "name" item >>= λ v. if is_text name v then ok (some item) else later

abbrev pub as_array : Json → Result Exc (List Json)
as_array (arr xs) = ok (items xs)
as_array v = err (handled "pgBackRest info must be a JSON array")

abbrev pub present : String → Option Json → Result Exc Json
present name (some stanza) = ok stanza
present name none = err (handled ("pgBackRest stanza not found: " <> name))

-- `a or b`
abbrev or_else : Option String → String → String
or_else (some (String.◌∷◌ c s)) b = String.◌∷◌ c s
or_else _ b = b

abbrev pub wanted : Selector → String
wanted s = or_else s.label (or_else s.run_id "requested selector")

abbrev pub only : (ℕ → String) → String → List Json → Result Exc Json
only show name (backup ∷ []) = ok backup
only show name backups =
    err (
      handled
        ("expected one pgBackRest backup for " <> name <> ", found " <> show (length backups)))

-- The backups of a stanza.
abbrev pub backups_of : Json → Result Exc (List Json)
backups_of stanza = do
  listed ← member "backup" stanza
  iterate (or_default (arr (from_list [])) listed)

module _ (w : World) where
  unfoldable pub select_backup : Json → String → Selector → Result Exc (Json × Json)
  select_backup info name s = do
    stanzas ← as_array info
    named ← find_stanza name stanzas
    stanza ← present name named
    backups ← backups_of stanza
    chosen ← candidates s backups
    backup ← only w.show (wanted s) chosen
    ok (stanza, backup)

  -- `a, b = parts`, where there may be only so many parts.
  abbrev unpacked : {A : Type 0} → String → Option A → Result Exc A
  unpacked got (some a) = ok a
  unpacked got none = err (handled ("not enough values to unpack (expected 2, got " <> got <> ")"))

  abbrev is_blank : String → Bool
  is_blank String.[] = true
  is_blank _ = false

  -- `line.split(maxsplit=1)`
  abbrev pub split_word : String → Option (String × String)
  split_word line =
      let text = left_strip line in
      let rest = left_strip (after_word text) in
      if is_blank rest then none else some (word text, rest)

  unfoldable pub manifest_entry : String → Result Exc Json
  unfolding left_strip word after_word strip_stars cut remove_suffix
  manifest_entry line = do
    (checksum, marked) ←
        unpacked (if is_blank (left_strip line) then "0" else "1") (split_word line)
    (version_text, remainder) ← unpacked "1" (cut "_" (strip_stars marked))
    version ← to_int w (str version_text)
    ok (
        object (
          ("version", int version)
          ∷ ("name", str (remove_suffix ".sql" remainder))
          ∷ ("checksumSha256", str checksum)
          ∷ []))

  unfoldable pub entries : List String → Result Exc (List Json)
  entries [] = ok []
  entries (line ∷ rest) = do entry ← manifest_entry line; others ← entries rest; ok (entry ∷ others)

  unfoldable pub manifest_entries : String → Result Exc (List Json)
  unfolding split_lines
  manifest_entries text = entries (split_lines text)
