-- ===== src/Tests/Helpers.antt =====
-- The helpers at concrete inputs.
use milvus_backup.Base.{List, [], ◌∷◌, none, some, ◌≡◌, ◌↔◌}
use milvus_backup.Base.Text.{Text, codes, text_key}
use milvus_backup.Proto.{KeyValuePair}
use milvus_backup.Utils.Space.{trim_space}
use milvus_backup.Utils.Validate.{validate_type, IsName, validate_type-none_iff}
use milvus_backup.Utils.KeyValue.{JsonObject}

validate_type-none_iff_example :
    (validate_type (codes " my_backup ") (codes "BACKUP_NAME") ≡ none)
    ↔ IsName (trim_space (codes " my_backup "))
validate_type-none_iff_example = validate_type-none_iff (codes " my_backup ") (codes "BACKUP_NAME")

-- Every text is an object with one entry.
abbrev object : JsonObject
object = record { Value = Text; decode = λ s. some ((codes "nlist", s) ∷ []); show = λ s. s }

abbrev pairs : List KeyValuePair
pairs =
    record { key = codes "dim"; value = codes "8" }
    ∷ record { key = codes "params"; value = codes "128" }
    ∷ []
