-- ===== src/Milvus/Laws.antt =====
-- What the program relies on in the client library: calls run in the database chosen last, and calls
-- that ask do not change which collections there are.
use milvus_backup.Base.{Bool, ◌≡◌, ok, arith}
use milvus_backup.Base.Text.{Text}
use milvus_backup.Milvus.Client.{Client}
use milvus_backup.Milvus.Wrapper.{has_collection}

-- The database in use, and whether a database has a collection.
pub record Shows (client : Client) : Type 0 where
  pub in_use : client.State → Text
  pub has : client.State → Text → Text → Bool
  pub using_database-in_use :
      (db : Text) (s : client.State)
      → (client.using_database db s).0 ≡ ok tt
      → in_use (client.using_database db s).1 ≡ db
  pub using_database-has :
      (db : Text) (s : client.State) (d n : Text)
      → has (client.using_database db s).1 d n ≡ has s d n
  pub has_collection-ok :
      (name : Text) (s : client.State) (b : Bool)
      → (client.has_collection name s).0 ≡ ok b
      → b ≡ has s (in_use s) name
  pub has_collection-has :
      (name : Text) (s : client.State) (d n : Text)
      → has (client.has_collection name s).1 d n ≡ has s d n
  pub list_databases-has :
      (s : client.State) (d n : Text) → has (client.list_databases s).1 d n ≡ has s d n
  pub create_database-has :
      (db : Text) (s : client.State) (d n : Text)
      → has (client.create_database db s).1 d n ≡ has s d n

module _ (client : Client) (shows : Shows client) where
  -- The wrapper's answer is that of the database that it is given, whichever was in use.
  pub has_collection-answer :
      (db name : Text) (s : client.State) (b : Bool)
      → (has_collection client db name s).0 ≡ ok b
      → b ≡ shows.has s db name
  unfolding has_collection
  has_collection-answer db name s b h = ground (
    arith,
    shows.using_database-in_use db s,
    shows.using_database-has db s db name,
    shows.has_collection-ok name (client.using_database db s).1 b,
  )

  pub has_collection-keeps :
      (db name : Text) (s : client.State) (d n : Text)
      → shows.has (has_collection client db name s).1 d n ≡ shows.has s d n
  unfolding has_collection
  has_collection-keeps db name s d n = ground (
    arith,
    shows.using_database-has db s d n,
    shows.has_collection-has name (client.using_database db s).1 d n,
  )
