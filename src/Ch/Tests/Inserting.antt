-- ===== src/Ch/Tests/Inserting.antt =====
-- Runs of the functions that read the target of an INSERT.
use pggen.Prelude.{◌≡◌, refl, [], ◌∷◌, none, some}
use pggen.Prelude.Text.{codes}
use pggen.Ch.Insert.{scan_insert_target}

scan_insert_target_columns :
    scan_insert_target (codes "insert INTO TABLE `a.b`.c /*x*/ (id, `the name`)")
    ≡ some (record {
      table = codes "a.b.c";
      sql_name = codes "`a.b`.c";
      columns = codes "id" ∷ codes "the name" ∷ [];
    })
unfolding scan_insert_target
scan_insert_target_columns = refl

scan_insert_target_function : scan_insert_target (codes "INSERT INTO FUNCTION f(1)") ≡ none
unfolding scan_insert_target
scan_insert_target_function = refl
