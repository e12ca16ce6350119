-- ===== src/Readiness/Summary.antt =====
-- operations/bin/compose_readiness_v1.py: the assignments of the command line, and the host and the recovery
-- target that the result names.
use liqi_platform.Prelude.{
  String, ◌<>◌, Bool, true, false, ◌||◌, Option, none, some, List, [], ◌∷◌, ◌++◌, ◌==◌, string_eq,
  if◌then◌else◌, Result, ok, err, and_then,
}
use liqi_platform.Prelude.Int.{pos}
use liqi_platform.Prelude.Texts.{cut}
use liqi_platform.Prelude.Json.{Json, null, bool, int, str, obj, object, get, is_true}
use liqi_platform.Readiness.Composition.{World, Entry, Crash, malformed, find, text_or}

abbrev pub Paths : Type 0
Paths = List (String × String)

abbrev pub is_blank : String → Bool
is_blank String.[] = true
is_blank _ = false

abbrev pub is_known : Option String → Bool
is_known (some p) = true
is_known none = false

module _ (resolve : String → String) (label : String) where
  -- What is added to the dictionary for the two sides of a value, or the text of a `ValueError`.
  unfoldable pub assign : Paths → String → Option (String × String) → Result String Paths
  assign seen value none = err (label <> " must use name=path: " <> value)
  assign seen value (some (name, raw)) =
      if is_blank name || is_blank raw
      then err (label <> " must use non-empty name=path: " <> value)
      else if is_known (find name seen)
      then err ("duplicate " <> label <> " name: " <> name)
      else ok (seen ++ (name, resolve raw) ∷ [])

  unfoldable pub parse_from : Paths → List String → Result String Paths
  unfolding assign
  parse_from seen [] = ok seen
  parse_from seen (value ∷ rest) =
      and_then (assign seen value (cut "=" value)) λ more. parse_from more rest

  -- `parse_assignments`, with the names in the order of the arguments.
  unfoldable pub parse_assignments : List String → Result String Paths
  unfolding parse_from
  parse_assignments values = parse_from [] values

-- The host and the recovery target of the result.
pub record Summary : Type 0 where
  pub host : Json
  pub recovery_target : Json

-- A value whose members are read, where a missing one has a default.
abbrev object_or : Json → Option Json → Result Crash Json
object_or default none = ok default
object_or default (some (obj fs)) = ok (obj fs)
object_or default (some v) = err malformed

abbrev value_or : Json → Option Json → Json
value_or default none = default
value_or default (some v) = v

abbrev default_host : Json
default_host = object (
    ("shape", str "VM.Standard.A1.Flex")
    ∷ ("ocpu", int (pos 4))
    ∷ ("memory_mib", int (pos 24576))
    ∷ ("combined_storage_gib", int (pos 200))
    ∷ [])

abbrev default_reserve : Json
default_reserve =
    object
      (("ocpu", int (pos 1)) ∷ ("memory_mib", int (pos 4096)) ∷ ("disk_gib", int (pos 20)) ∷ [])

unfoldable pub host_summary : Json → Json → Json
host_summary host reserve = object (
    ("shape", value_or (str "VM.Standard.A1.Flex") (get "shape" host))
    ∷ ("ocpu", value_or (int (pos 4)) (get "ocpu" host))
    ∷ ("memory_mib", value_or (int (pos 24576)) (get "memory_mib" host))
    ∷ ("combined_storage_gib", value_or (int (pos 200)) (get "combined_storage_gib" host))
    ∷ ("reserved_ocpu", value_or (int (pos 1)) (get "ocpu" reserve))
    ∷ ("reserved_memory_mib", value_or (int (pos 4096)) (get "memory_mib" reserve))
    ∷ ("reserved_disk_gib", value_or (int (pos 20)) (get "disk_gib" reserve))
    ∷ [])

-- The reference of the first entry on the recovery of releases.
abbrev recovery_ref : List Entry → String
recovery_ref [] = "missing:release-recovery"
recovery_ref (e ∷ rest) =
    let later = recovery_ref rest in if e.kind == "release-recovery" then e.evidence_ref else later

-- `recovery_to`, where it is a dictionary that is retained.
abbrev retained_release : Option Json → Option Json
retained_release (some (obj fs)) = if is_true (get "retained" (obj fs)) then some (obj fs) else none
retained_release _ = none

abbrev member_if : String → Option Json → Json
member_if key (some v) = value_or null (get key v)
member_if key none = null

abbrev is_retained : Option Json → Bool
is_retained (some v) = true
is_retained none = false

module _ (w : World) where
  unfoldable pub recovery_summary : Json → List Entry → Json
  recovery_summary release_recovery entries =
      let retained = retained_release (get "to" release_recovery) in
      object (
        ("mode", str (text_or w "deactivate-first-release" (get "recovery_mode" release_recovery)))
        ∷ ("retained_application_release", bool (is_retained retained))
        ∷ ("release_id", member_if "release_id" retained)
        ∷ ("git_sha", member_if "git_sha" retained)
        ∷ ("runtime_generation", member_if "runtime_generation" retained)
        ∷ ("evidence_ref", str (recovery_ref entries))
        ∷ [])

  unfoldable pub summarize : List (String × Json) → List Entry → Result Crash Summary
  unfolding host_summary recovery_summary
  summarize documents entries =
      and_then (object_or (object []) (find "capacity" documents)) λ capacity.
        and_then (object_or default_host (get "host" capacity)) λ host.
          and_then (object_or default_reserve (get "reserve" capacity)) λ reserve.
            and_then (object_or (object []) (find "release-recovery" documents)) λ release_recovery.
              ok (record {
                host = host_summary host reserve;
                recovery_target = recovery_summary release_recovery entries;
              })
