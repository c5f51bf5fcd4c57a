-- ===== src/Tests/Keys.antt =====
-- The key-value store in memory over a list of items, at concrete inputs.
use milvus_backup.Base.{List, [], ◌∷◌, ◌≡◌, refl}
use milvus_backup.Base.Text.{Text, codes, text_key}
use milvus_backup.Base.Dict.{Dict, lookup, insert, delete, lookup-insert, lookup-delete}
use milvus_backup.Kv.Mem.{Value, string_value, Btree}
use milvus_backup.Kv.Mem.Refinement.{
  IsMap, Op, op_save, op_multi_save, op_remove_with_prefix, run_all, mean_all, view, run_all-view,
}

abbrev items : Btree
items = record {
  Tree = Dict Text Value;
  new = [];
  get = lookup;
  replace_or_insert = insert;
  delete = delete;
  ascend = λ t. t;
  ascend_range = λ first last t. t;
}

items-IsMap : IsMap items
unfolding lookup
items-IsMap = record {
  get-new = λ j. refl;
  get-replace_or_insert = λ j k v t. lookup-insert j k v t;
  get-delete = λ j k t. lookup-delete j k t;
  lookup-ascend = λ j t. refl;
}

abbrev ops : List Op
ops =
    op_save (codes "a/1") (codes "one")
    ∷ op_multi_save string_value ((codes "a/2", codes "two") ∷ (codes "b", codes "three") ∷ [])
    ∷ op_remove_with_prefix (codes "a/")
    ∷ []

run_all-view_example :
    view items (run_all items ops []) (codes "b") ≡ mean_all ops (view items []) (codes "b")
run_all-view_example = run_all-view items items-IsMap ops [] (codes "b")
