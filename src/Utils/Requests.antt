-- ===== src/Utils/Requests.antt =====
-- GetCreateDBCollections, GetRestoreDBCollections and WrapDBCollections of
-- core/utils/backup_request_util.go. jsonpb's MarshalToString is a parameter.
use milvus_backup.Base.{Option, none, some, [], Result, ok, err}
use milvus_backup.Base.Text.{Text}
use milvus_backup.Proto.{
  DbCollectionsValue, string_value, struct_value, other_value, CreateBackupRequest,
  RestoreBackupRequest,
}

module _ (marshal_to_string : Text → Result Text Text) where
  unfoldable pub db_collections_text : Option DbCollectionsValue → Text
  db_collections_text none = []
  db_collections_text (some (string_value s)) = s
  db_collections_text (some (struct_value j)) = elim (marshal_to_string j) [ ok s ↦ s | err _ ↦ [] ]
  db_collections_text (some other_value) = []

  unfoldable pub get_create_db_collections : CreateBackupRequest → Text
  unfolding db_collections_text
  get_create_db_collections request = db_collections_text request.db_collections

  unfoldable pub get_restore_db_collections : RestoreBackupRequest → Text
  unfolding db_collections_text
  get_restore_db_collections request = db_collections_text request.db_collections

unfoldable pub wrap_db_collections : Text → DbCollectionsValue
wrap_db_collections s = string_value s
