-- ===== src/EnvDo/Warnings.antt =====
-- broker/src/env-do.ts, mergeWarnings: the warnings stored with a command.
-- The stored column is JSON that this function wrote itself, so it is the list that it encodes.
pub mod Bounds
mod Tests
use gha_mcp_host.Prelude.{
  ℕ, Bool, true, false, ◌||◌, List, [], ◌∷◌, ◌++◌, Option, none, some, if◌then◌else◌, length, take,
  text_eq,
}
use gha_mcp_host.Text.{Text, has_ink}

-- `warnings?: string[] | string | null`
pub data Incoming : Type 0 where
  absent : Incoming
  single : Text → Incoming
  several : List Text → Incoming

abbrev pub max_stored_warnings : ℕ
max_stored_warnings = 10

abbrev pub max_warning_chars : ℕ
max_warning_chars = 300

-- `push`, for each of a list.
pub push_all : List Text → List Text
push_all [] = []
push_all (v ∷ vs) = if has_ink v then take max_warning_chars v ∷ push_all vs else push_all vs

abbrev of_option {ℓ} : {A : Type ℓ} → Option A → List A
of_option none = []
of_option (some a) = a ∷ []

abbrev of_incoming : Incoming → List Text
of_incoming absent = []
of_incoming (single v) = v ∷ []
of_incoming (several vs) = vs

abbrev stored_list : Option (List Text) → List Text
stored_list none = []
stored_list (some vs) = vs

pub has : Text → List Text → Bool
has v [] = false
has v (w ∷ ws) = text_eq v w || has v ws

-- `[...new Set(out)]`: the first of equals stays.
pub unique : List Text → List Text → List Text
unfolding has
unique seen [] = []
unique seen (v ∷ vs) =
    let fresh = v ∷ unique (v ∷ seen) vs in
    let rest = unique seen vs in if has v seen then rest else fresh

some_if_any : List Text → Option (List Text)
some_if_any [] = none
some_if_any (v ∷ vs) = some (v ∷ vs)

pub merge_warnings : Option (List Text) → Incoming → Option Text → Option Text → Option (List Text)
unfolding push_all unique some_if_any
merge_warnings stored incoming extra extra' = some_if_any (
    take max_stored_warnings (
      unique [] (
        push_all
          (stored_list stored ++ (of_incoming incoming ++ (of_option extra ++ of_option extra'))))))
