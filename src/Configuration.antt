-- ===== src/Configuration.antt =====
-- `Configuration` of cincan/configuration.py: the options of the user, over the JSON value of a file.
use cincan_command.Prelude.{
  Text, codes, Bool, true, false, not, Option, none, some, List, [], ◌∷◌, ◌==◌, nat_eq, list_eq,
}
use cincan_command.Log.Json.{
  Json, str, num, bool, null, arr, obj, Items, nil, cons, Fields, end, field, get,
}
use cincan_command.Tar.Download.{◌>>=◌}
use cincan_command.Frontend.{detect_shell}
use cincan_command.Images.{Names}

-- `bool(value)`
unfoldable pub truth : Json → Bool
truth (str v) = not (v == [])
truth (num n) = not (n == 0)
truth (bool b) = b
truth null = false
truth (arr nil) = false
truth (arr (cons j js)) = true
truth (obj end) = false
truth (obj (field k j js)) = true

-- `self.values.get(key, default)`
unfoldable pub get_or : Text → Json → Fields → Json
unfolding get
get_or key default values = elim (get key values) [ none ↦ default | some j ↦ j ]

-- `self.values`, for the object in a file that is there or not
abbrev pub values_of : Option Fields → Fields
values_of none = end
values_of (some values) = values

pub record Configuration : Type 0 where
  pub show_updates : Json
  pub default_stable_tag : Json
  pub default_dev_tag : Json
  pub default_shells : Json
  pub values : Fields

abbrev two_shells : Json
two_shells = arr (cons (str (codes "/bin/bash")) (cons (str (codes "/bin/sh")) nil))

unfoldable pub configuration : Option Fields → Configuration
unfolding get_or
configuration file =
    let values = values_of file in
    record {
      show_updates = get_or (codes "show_updates") (bool true) values;
      default_stable_tag = get_or (codes "stable_tag") (str (codes "latest")) values;
      default_dev_tag = get_or (codes "dev_tag") (str (codes "dev")) values;
      default_shells = get_or (codes "shells") two_shells values;
      values = values;
    }

-- `is_command_log`
unfoldable pub is_command_log : Configuration → Bool
unfolding get_or truth
is_command_log c = truth (get_or (codes "command_log") (bool false) c.values)

-- The names that an image is looked up by, if the tags are texts
unfoldable pub names_of : Configuration → Text → Option Names
names_of c full_prefix = elim c.default_stable_tag [
  | str stable ↦ elim c.default_dev_tag [
    | str dev ↦ some (record { stable_tag = stable; dev_tag = dev; full_prefix = full_prefix })
    | _ ↦ none
  ]
  | _ ↦ none
]

-- The items, if all of them are texts
unfoldable pub texts_of : Items → Option (List Text)
texts_of nil = some []
texts_of (cons (str v) js) = do vs ← texts_of js; some (v ∷ vs)
texts_of (cons _ js) = none

-- `_detect_shell` with the configured shells. What is not a list gives no shell; `none` stands for a
-- list with an item that is no text, for which the answer is the docker client's.
unfoldable pub configured_shell : (Text → Bool) → Text → Json → Option Text
unfolding texts_of detect_shell
configured_shell has shell (arr js) = do shells ← texts_of js; some (detect_shell has shell shells)
configured_shell has shell _ = some []
