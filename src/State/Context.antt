-- ===== src/State/Context.antt =====
-- memory/state.py: repository paths, Step contexts and the outcome of a Step.
use Prim.Native.Char.{Char, code}
use codex_py.Base.{String, ◌<>◌, Bool, false, not, ◌&&◌, ◌||◌, Option, List, [], ◌∷◌, any, keep}
use codex_py.Base.{◌==◌, nat_eq, string_eq, if◌then◌else◌, is_blank, is_empty, is_some}
use codex_py.Base.{Result, ok, err, value_error, type_error, ◌>>=◌, ◌>>◌, guard, traverse}
use codex_py.Base.Json.{Json, arr, str, list_of}
use codex_py.State.{StepExecution, is_completed}

prepend : Char → List String → List String
prepend c [] = String.◌∷◌ c String.[] ∷ []
prepend c (p ∷ ps) = String.◌∷◌ c p ∷ ps

-- value.split("/")
split_slash : String → List String
unfolding prepend
split_slash String.[] = "" ∷ []
split_slash (String.◌∷◌ c s) =
    let rest = split_slash s in if code c == 47 then "" ∷ rest else prepend c rest

-- `PurePosixPath(value).parts` of a relative path
parts : String → List String
unfolding split_slash
parts value = keep (λ p. not (p == "" || p == ".")) (split_slash value)

join_slash : List String → String
join_slash [] = ""
join_slash (p ∷ []) = p
join_slash (p ∷ q ∷ ps) = p <> ("/" <> join_slash (q ∷ ps))

-- `PurePosixPath(value).as_posix()` of a relative path
as_posix : String → String
unfolding parts join_slash
as_posix value = let joined = join_slash (parts value) in if joined == "" then "." else joined

abbrev starts_with_slash : String → Bool
starts_with_slash String.[] = false
starts_with_slash (String.◌∷◌ c s) = code c == 47

-- `c in value`
has_code : Prim.Native.Nat.ℕ → String → Bool
has_code n String.[] = false
has_code n (String.◌∷◌ c s) = code c == n || has_code n s

-- len(value) >= 2 and value[1] == ":"
abbrev has_drive : String → Bool
has_drive (String.◌∷◌ c (String.◌∷◌ d s)) = code d == 58
has_drive _ = false

-- The conditions of `_context_paths` under which a path is unsafe.
unfoldable pub is_unsafe_path : String → Bool
unfolding as_posix parts has_code
is_unsafe_path value =
    starts_with_slash value
    || not (value == as_posix value)
    || (value == "." || value == "..")
    || has_code 0 value
    || has_code 92 value
    || has_drive value
    || any (λ p. p == "..") (parts value)

context_path : String → Json → Result String
unfolding is_unsafe_path
context_path name (str value) =
    if is_empty value
    then err (value_error (name <> " must contain non-empty strings"))
    else if is_unsafe_path value
    then err (value_error (name <> " contains an unsafe path"))
    else ok value
context_path name _ = err (value_error (name <> " must contain non-empty strings"))

-- _context_paths
unfoldable pub context_paths : Json → String → Result (List String)
unfolding context_path
context_paths (arr xs) name = traverse (context_path name) (list_of xs)
context_paths _ name = err (type_error (name <> " must be a list or tuple"))

context_observation : Json → Result String
context_observation (str value) =
    if is_blank value
    then err (value_error "observations must contain non-empty strings")
    else ok value
context_observation _ = err (value_error "observations must contain non-empty strings")

-- _context_observations
unfoldable pub context_observations : Json → Result (List String)
unfolding context_observation
context_observations (arr xs) = traverse context_observation (list_of xs)
context_observations _ = err (type_error "observations must be a list or tuple")

-- `ContextUpdate` is a subclass with the same fields and checks.
pub record StepContext : Type 0 where
  pub files_read : List String
  pub files_modified : List String
  pub observations : List String

abbrev pub ContextUpdate : Type 0
ContextUpdate = StepContext

abbrev pub empty_context : StepContext
empty_context = record { files_read = []; files_modified = []; observations = [] }

unfoldable pub new_step_context : Json → Json → Json → Result StepContext
unfolding context_paths context_observations
new_step_context read modified observations = do
  read' ← context_paths read "files_read"
  modified' ← context_paths modified "files_modified"
  observations' ← context_observations observations
  ok (record { files_read = read'; files_modified = modified'; observations = observations' })

pub record ExecutionOutcome : Type 0 where
  pub execution : StepExecution
  pub context_update : Option ContextUpdate

unfoldable pub new_execution_outcome :
    StepExecution → Option ContextUpdate → Result ExecutionOutcome
new_execution_outcome execution update = do
  guard (not (is_completed execution.status && not (is_some update)))
      (value_error "a completed execution requires a ContextUpdate")
  guard (not (not (is_completed execution.status) && is_some update))
      (value_error "only a completed execution may contain a ContextUpdate")
  ok (record { execution = execution; context_update = update })
