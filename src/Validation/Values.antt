-- ===== src/Validation/Values.antt =====
-- The values of a request: scripts/durable_recovery.py, what `validate_request` reads and compares.
use moon_mqtt_client.Base.{
  ℕ, String, Bool, true, false, not, ◌&&◌, ◌||◌, List, [], ◌∷◌, Option, none, some, ◌==◌, str_eq,
  if◌then◌else◌,
}
use moon_mqtt_client.Base.Int.{pos}
use moon_mqtt_client.Json.{Json, null, bool, int, str, arr, obj, Items, Fields, get}
use moon_mqtt_client.Paths.{FilePath, path_eq}
use moon_mqtt_client.Request.{
  Protocol, mqtt311, mqtt5, Disposition, confirmed_applied, confirmed_not_applied,
  abandoned_unknown,
}
use moon_mqtt_client.World.{World, follow}

abbrev pub text_of : Json → Option String
text_of (str s) = some s
text_of _ = none

abbrev pub fields_of : Json → Option Fields
fields_of (obj fs) = some fs
fields_of _ = none

abbrev pub own_fields : Json → Fields
own_fields (obj fs) = fs
own_fields _ = Fields.end

abbrev pub items_of : Json → Option Items
items_of (arr xs) = some xs
items_of _ = none

-- `isinstance(v, int) and not isinstance(v, bool)`, at least 0.
abbrev pub natural_of : Json → Option ℕ
natural_of (int (pos n)) = some n
natural_of _ = none

-- `d.get(k, "")` and `d.get(k)`
abbrev pub get_or : Json → String → Fields → Json
get_or default k fs = elim (get k fs) [ none ↦ default | some v ↦ v ]

abbrev pub text_at : String → Fields → Option String
text_at k fs = text_of (get_or null k fs)

-- `d.get(k) is not True`
abbrev pub is_true_at : String → Fields → Bool
is_true_at k fs = elim (get_or null k fs) [ bool b ↦ b | _ ↦ false ]

-- `d.get(k, word) == word`
abbrev pub is_default : String → String → Fields → Bool
is_default k word fs = elim (get k fs) [
  | none ↦ true
  | some (str s) ↦ str_eq s word
  | some _ ↦ false
]

abbrev pub top_fields : List String
top_fields =
    "version" ∷ "operation_id" ∷ "source" ∷ "archive" ∷ "target" ∷ "broker" ∷ "old_session"
    ∷ "new_session" ∷ "decision" ∷ []

abbrev pub broker_fields : List String
broker_fields =
    "host" ∷ "port" ∷ "protocol" ∷ "transport" ∷ "tls" ∷ "username" ∷ "password_env"
    ∷ "timeout_seconds" ∷ []

abbrev pub decision_fields : List String
decision_fields =
    "operator" ∷ "decided_at" ∷ "rationale" ∷ "same_principal_asserted" ∷ "old_client_id_owned"
    ∷ "old_cleanup_authorized" ∷ "new_client_id_owned" ∷ "new_cleanup_authorized" ∷ "records" ∷ []

abbrev pub asserted_fields : List String
asserted_fields =
    "same_principal_asserted" ∷ "old_client_id_owned" ∷ "old_cleanup_authorized"
    ∷ "new_client_id_owned" ∷ "new_cleanup_authorized" ∷ []

-- `len({str(path) for path in paths}) == len(paths)`
abbrev path_in : FilePath → List FilePath → Bool
path_in p [] = false
path_in p (q ∷ qs) = path_eq p q || path_in p qs

abbrev pub paths_distinct : List FilePath → Bool
paths_distinct [] = true
paths_distinct (p ∷ ps) = not (path_in p ps) && paths_distinct ps

-- No two of the paths that exist lead to one inode.
abbrev inode_in : ℕ → List FilePath → World → Bool
inode_in i [] w = false
inode_in i (q ∷ qs) w =
    (elim (follow w (w.entry q)) [ none ↦ false | some j ↦ i == j ]) || inode_in i qs w

abbrev pub no_alias : List FilePath → World → Bool
no_alias [] w = true
no_alias (p ∷ ps) w =
    (elim (follow w (w.entry p)) [ none ↦ true | some i ↦ not (inode_in i ps w) ]) && no_alias ps w

abbrev pub protocol_of : Option String → Option Protocol
protocol_of none = none
protocol_of (some s) =
    if str_eq s "mqtt311" then some mqtt311 else if str_eq s "mqtt5" then some mqtt5 else none

-- `d.get(k)` that is `None` or a text with a property; the inner option is the text.
abbrev pub optional_text : (String → Bool) → Json → Option (Option String)
optional_text p null = some none
optional_text p (str s) = if p s then some (some s) else none
optional_text p _ = none

abbrev pub disposition_of : String → Option Disposition
disposition_of s =
    if str_eq s "ConfirmedApplied"
    then some confirmed_applied
    else if str_eq s "ConfirmedNotApplied"
    then some confirmed_not_applied
    else if str_eq s "AbandonedUnknown"
    then some abandoned_unknown
    else none
