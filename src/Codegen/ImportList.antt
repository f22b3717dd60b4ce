-- ===== src/Codegen/ImportList.antt =====
-- addImport and removeImport of internal/codegen/golang/templater.go: the list of a file's imports
-- behind templating.
pub mod Kept
use pggen.Prelude.{Bool, true, false, not, ◌&&◌, ◌||◌, List, [], ◌∷◌, map, if◌then◌else◌}
use pggen.Prelude.Text.{Text, eq}
use pggen.GoType.Imports.{ImportPkg, before}

abbrev pub paths : List ImportPkg → List Text
paths imports = map (λ (imp : ImportPkg). imp.pkg_path) imports

abbrev pub plain_import : Text → ImportPkg
plain_import p = record { pkg_path = p; alias = [] }

-- The import in front of the first that stands behind it in the order of paths.
unfoldable pub insert_import : Text → List ImportPkg → List ImportPkg
unfolding before
insert_import p [] = plain_import p ∷ []
insert_import p (imp ∷ imports) =
    let later = insert_import p imports in
    if before imp.pkg_path p then imp ∷ later else plain_import p ∷ imp ∷ imports

unfoldable pub has_import : Text → List ImportPkg → Bool
unfolding eq
has_import p [] = false
has_import p (imp ∷ imports) = eq imp.pkg_path p || has_import p imports

-- `addImport(imports, pkgPath)`.
unfoldable pub insert_missing : List ImportPkg → Text → List ImportPkg
unfolding has_import insert_import
insert_missing imports p = if has_import p imports then imports else insert_import p imports

-- `removeImport(imports, pkgPath)`, and the loop that removes a file's import of itself.
unfoldable pub remove_import : List ImportPkg → Text → List ImportPkg
unfolding eq
remove_import [] p = []
remove_import (imp ∷ imports) p =
    let later = remove_import imports p in if eq imp.pkg_path p then imports else imp ∷ later
