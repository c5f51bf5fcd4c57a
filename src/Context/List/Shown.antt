-- ===== src/Context/List/Shown.antt =====
-- ListBackups: how often each backup is in the answer.
use milvus_backup.Base.{
  ℕ, zero, suc, Option, ap, false, List, [], ◌∷◌, ◌++◌, map, none, some, ◌≡◌, refl, Result, ok, err,
  keep, concat_map, length,
}
use milvus_backup.Base.Text.{Text, text_key, text_eq}
use milvus_backup.Base.Int64.{Int64}
use milvus_backup.Proto.{
  CollectionBackupInfo, ResponseCode, not_support, no_permission, parameter_error,
  request_object_not_found, BackupInfo, BackupInfoResponse, ListBackupsRequest, ListBackupsResponse,
  success, fail,
}
use milvus_backup.Meta.Files.{Json}
use milvus_backup.Meta.Paths.{slash, backup_path_to_name}
use milvus_backup.Storage.{ChunkManager}
use milvus_backup.Context.State.{BackupContext, ensure_started}
use milvus_backup.Context.Get.{success_msg, request_id_or, get_backup}
use milvus_backup.Context.List.{
  named, wanted, listed, list_loop-eq, answer_list, list_backups, found_at, ensure_started-started,
}

module _ (cm : ChunkManager) (json : Json) where
  -- How often the backup of an answer is listed: once, or, with a collection name, once for each
  -- collection of the name; not at all where the answer is not a success.
  abbrev pub times : Text → BackupInfoResponse → BackupInfo → ℕ
  times collection_name r backup = elim r.code [
    | success ↦ elim collection_name as (λ _. ℕ) [
      | [] ↦ 1
      | _ ∷ _ ↦
          length (keep (λ c. text_eq c.collection_name collection_name) backup.collection_backups)
    ]
    | _ ↦ 0
  ]

  abbrev pub copies : ℕ → BackupInfo → List BackupInfo
  copies zero backup = []
  copies (suc n) backup = backup ∷ copies n backup

  -- The backups listed for the answer of GetBackup.
  abbrev pub shown : Text → BackupInfoResponse → List BackupInfo
  shown collection_name r = elim r.backup [
    | none ↦ []
    | some backup ↦ copies (times collection_name r backup) backup
  ]

  -- What is listed for a path below the root of the backups: what GetBackup answers for the name.
  abbrev pub shown_at : Text → BackupContext cm → Text → Text × Int64 → List BackupInfo
  shown_at uuid b collection_name (path, _) =
      shown collection_name
        (get_backup cm json uuid b (record {
          request_id = [];
          backup_name = backup_path_to_name b.backup_root_path path;
          backup_id = [];
          bucket_name = [];
          path = [];
          without_detail = false;
        })).0

  map-copies :
      (backup : BackupInfo) (cs : List CollectionBackupInfo)
      → map (λ _. backup) cs ≡ copies (length cs) backup
  map-copies backup [] = refl
  map-copies backup (c ∷ cs) = ap (λ l. backup ∷ l) (map-copies backup cs)

  wanted-shown :
      (collection_name : Text) (r : BackupInfoResponse)
      → listed collection_name r ≡ shown collection_name r
  unfolding listed wanted text_eq
  wanted-shown collection_name r = by r.code r.backup collection_name
    where
      by :
          (code : ResponseCode) (backup : Option BackupInfo) (name : Text)
          → listed name (record r { code = code; backup = backup })
            ≡ shown name (record r { code = code; backup = backup })
      by success none name = refl
      by success (some backup) [] = refl
      by success (some backup) (l ∷ ls) =
          map-copies backup
            (keep (λ c. text_eq c.collection_name (l ∷ ls)) backup.collection_backups)
      by not_support none name = refl
      by not_support (some backup) name = refl
      by no_permission none name = refl
      by no_permission (some backup) name = refl
      by fail none name = refl
      by fail (some backup) name = refl
      by parameter_error none name = refl
      by parameter_error (some backup) name = refl
      by request_object_not_found none name = refl
      by request_object_not_found (some backup) name = refl

  shown_eq :
      (b : BackupContext cm) (uuid : Text) (request : ListBackupsRequest) (ps : List (Text × Int64))
      → ◌≡◌ {A = ListBackupsResponse × BackupContext cm}
          (
            record {
              request_id = request_id_or request.request_id uuid;
              code = success;
              msg = success_msg;
              backups = concat_map (found_at cm json uuid b request.collection_name) ps;
            },
            b,
          )
          (
            record {
              request_id = request_id_or request.request_id uuid;
              code = success;
              msg = success_msg;
              backups = concat_map (shown_at uuid b request.collection_name) ps;
            },
            b,
          )
  shown_eq b uuid request ps i = (
    record {
      request_id = request_id_or request.request_id uuid;
      code = success;
      msg = success_msg;
      backups =
          concat_map
            (λ (e : Text × Int64).
              wanted-shown request.collection_name
                (get_backup cm json uuid b (named (backup_path_to_name b.backup_root_path e.0))).0
                i)
            ps;
    },
    b,
  )

  -- Where the root of the backups can be listed, the answer is a success whose backups are, path
  -- by path, those that GetBackup answers with success for the names read off the paths, each
  -- once, or, if the request names a collection, as often as the backup has collections of this
  -- name; where it cannot, the answer is a failure without backups. In both cases the context is
  -- the started one.
  pub list_backups_lem :
      (uuid : Text) (b : BackupContext cm) (request : ListBackupsRequest)
      (paths : Result Text (List (Text × Int64)))
      → let b' = ensure_started cm b in
        cm.list_with_prefix b'.storage b'.backup_bucket_name (b'.backup_root_path ++ slash) false
          ≡ paths
        → list_backups cm json uuid b request ≡ (
          record {
            request_id = request_id_or request.request_id uuid;
            code = elim paths [ ok _ ↦ success | err _ ↦ fail ];
            msg = elim paths [ ok _ ↦ success_msg | err e ↦ e ];
            backups = elim paths [
              | ok ps ↦ concat_map (shown_at uuid (ensure_started cm b) request.collection_name) ps
              | err _ ↦ []
            ];
          },
          ensure_started cm b,
        )
  list_backups_lem uuid b request (ok ps) h =
      unfold list_backups answer_list in
      rw
        (
          h,
          answer_list,
          list_loop-eq cm json uuid (ensure_started cm b) request.collection_name ps []
              (ensure_started-started cm json b),
        )
        (shown_eq (ensure_started cm b) uuid request ps)
  list_backups_lem uuid b request (err e) h =
      unfold list_backups answer_list in rw (h, answer_list) refl
