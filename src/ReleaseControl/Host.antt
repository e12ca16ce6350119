-- ===== src/ReleaseControl/Host.antt =====
-- The host as release_control.py sees it: the two selection links with the temporary link of an
-- atomic replacement, what was done so far, and a monad for statements that change the host and
-- may raise. What the operating system answers is the parameter `World`: it may depend on all that
-- happened before, so a theorem for every world covers every order of failures.
use liqi_platform.Prelude.{ℕ, String, Bool, true, false, Option, List, ◌∷◌, if◌then◌else◌}
use liqi_platform.Prelude.{Result, ok, err}
use liqi_platform.Prelude.Json.{Json}
use liqi_platform.ReleaseControl.Documents.{Release, Check, RecoveryCheck, Document}

-- A `RuntimeError`, a `SystemExit`, or another exception (`OSError`, `ValueError`, `KeyError`), each
-- with its text.
pub data Exception : Type 0 where
  runtime_error : String → Exception
  system_exit : String → Exception
  other_error : String → Exception

-- `str(error)`
abbrev pub message : Exception → String
message (runtime_error s) = s
message (system_exit s) = s
message (other_error s) = s

-- What stands at a path.
pub data Entry : Type 0 where
  absent : Entry
  symlink : String → Entry
  plain_file : Entry

-- A link's path and the path of its temporary, `.{name}.new.{pid}`.
pub record Slot : Type 0 where
  pub entry : Entry
  pub temporary : Entry

pub data Link : Type 0 where
  current_link runtime_link : Link

-- The effects on the host, in the order of their calls.
pub data Event : Type 0 where
  ran : List String → ℕ → Event
  made_directory : Link → Event
  removed_temporary : Link → Event
  made_temporary : Link → String → Event
  replaced : Link → Event
  unlinked : Link → Event
  wrote : String → Document → Event

-- `subprocess.run`: it ends with a return code, its output and its duration in milliseconds, it
-- times out, or it cannot start.
pub data RunOutcome : Type 0 where
  exited : (success : Bool) → (stdout stderr : String) → ℕ → RunOutcome
  timed_out : ℕ → RunOutcome
  not_started : String → RunOutcome

pub record World : Type 0 where
  -- the answers to effects, from what happened before, newest first
  pub runs : List Event → List String → ℕ → RunOutcome
  pub refuses : List Event → Event → Bool
  pub elapsed_seconds : List Event → ℕ
  pub utc : List Event → String
  -- reads
  pub root_posix : Bool
  pub load : String → Result Exception Json
  pub failures : String → Json → List String
  pub release_view : Json → Release
  pub document_failures : Document → List String
  pub resolve : String → Option (String × String)
  pub is_file : String → Bool
  pub is_dir : String → Bool
  pub path_exists : String → Bool
  pub readable : String → Bool
  pub size_of : String → ℕ
  pub mode_of : String → ℕ
  pub digest : String → Result Exception String

-- The host, and the two lists of `main` that outlive an exception.
pub record Host : Type 0 where
  pub current : Slot
  pub runtime : Slot
  pub history : List Event
  pub checks : List Check
  pub recovery_checks : List RecoveryCheck

abbrev pub Exec : Type 0 → Type 0
Exec A = Host → Result Exception A × Host

module _ {A B : Type 0} where
  abbrev pub continue : Result Exception A → (A → Exec B) → Exec B
  continue (ok a) f h = f a h
  continue (err e) f h = (err e, h)

  infixl 5 ◌>>=◌ ◌>>◌
  abbrev pub ◌>>=◌ : Exec A → (A → Exec B) → Exec B
  ◌>>=◌ m f h = let (r, h') = m h in continue r f h'

  abbrev pub ◌>>◌ : Exec A → Exec B → Exec B
  m >> n = m >>= λ _. n

module _ {A : Type 0} where
  abbrev pub pure : A → Exec A
  pure a h = (ok a, h)

  abbrev pub raise : Exception → Exec A
  raise e h = (err e, h)

  abbrev pub lift : Result Exception A → Exec A
  lift r h = (r, h)

-- `if condition: raise error`
abbrev pub raise_if : Bool → Exception → Exec (Unit {0})
raise_if true e h = (err e, h)
raise_if false e h = (ok tt, h)

abbrev pub slot : Link → Host → Slot
slot current_link h = h.current
slot runtime_link h = h.runtime

abbrev pub set_slot : Link → Slot → Host → Host
set_slot current_link s h = record h { current = s }
set_slot runtime_link s h = record h { runtime = s }

-- A file operation that the world may refuse; refused, it changes nothing.
abbrev pub file_step : World → Event → (Host → Host) → Exec (Unit {0})
file_step w e change h =
    if w.refuses h.history e
    then (err (other_error "OSError"), h)
    else (ok tt, let h' : Host = change h in record h' { history = e ∷ h.history })
