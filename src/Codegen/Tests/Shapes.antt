-- ===== src/Codegen/Tests/Shapes.antt =====
-- The theorems about what is written of a query, at the queries of the tests.
use pggen.Prelude.{ℕ, ◌≡◌, refl, not, List, [], ◌∷◌, ◌++◌, map, All, some, none, if◌then◌else◌}
use pggen.Prelude.Result.{ok}
use pggen.Prelude.Text.{Text, codes, contains, IsDistinct, is_empty, join}
use pggen.GoType.{pointer_type, unwrap_nested_type}
use pggen.Codegen.{SortKeyConst, click_house, is_inline_params, remove_void_columns, all_queries}
use pggen.Codegen.Emit.{concat, emit_row_scan_args, has_only_one, scan_arg, scan_args}
use pggen.Codegen.Emit.Structs.{emit_param_struct, row_struct_fields}
use pggen.Codegen.Emit.Align.{Lines, InputLine, ColumnLine, params_struct, struct_columns_fill}
use pggen.Codegen.Emit.Rows.{IsPlain, Scans, emit_row_scan_args-Scans}
use pggen.Codegen.ClickHouse.{any_query, needs_click_house_import, ch_conn_methods_of}
use pggen.Codegen.ClickHouse.Call.{emit_ch_param_names, emit_ch_variant_param_names}
use pggen.Codegen.ClickHouse.Needs.{
  needs_click_house_import_lem, calls_exec, calls_query_row, calls_select, calls_query, is_called,
  ch_conn_methods_of_lem,
}
use pggen.Codegen.Group.{build_paginate_group, emit_dispatcher}
use pggen.Codegen.Group.Fields.{pg_names, all_inputs, ServesVariants, build_paginate_group-fields}
use pggen.Codegen.Group.Constants.{
  values, sort_keys, const_of, case_of, build_paginate_group-constants,
}
use pggen.Codegen.Shared.{QueryRef, merge_group}
use pggen.Codegen.Shared.Merge.{value_of, reference, merge_group-reference}
use pggen.Codegen.Shared.Known.{compatible}
use pggen.Codegen.Tests.{column_named, text_type, find_items, list_default, list_due, items_file}

abbrev quoted : Text → Text
quoted s = b'"' ∷ (s ++ b'"' ∷ [])

abbrev same_case : Text → Text
same_case s = s

struct_columns_fill_example :
    ((wn : ℕ) × (wt : ℕ) × (lines : List Text) × Lines
        (InputLine quoted wn wt)
        list_due.inputs
        lines
      × (emit_param_struct quoted list_due
          ≡ params_struct quoted (is_inline_params list_due) (list_due.name) lines))
    × ((wn : ℕ) × (wt : ℕ) × (wc : ℕ) × (lines : List Text) × Lines
          (ColumnLine quoted click_house wn wt wc)
          find_items.outputs
          lines
        × (row_struct_fields quoted find_items.outputs click_house ≡ concat lines))
struct_columns_fill_example = struct_columns_fill quoted list_due find_items.outputs click_house

scan-find_items : emit_row_scan_args find_items ≡ ok (codes "&item.Id, nil, &item.Name")
unfolding emit_row_scan_args scan_args has_only_one remove_void_columns scan_arg unwrap_nested_type
scan-find_items = refl

IsPlain-items : All IsPlain find_items.outputs
unfolding unwrap_nested_type
IsPlain-items = (refl, (refl, (refl, tt)))

emit_row_scan_args-Scans_example :
    (args : List Text) × ((emit_row_scan_args find_items ≡ ok (join args (codes ", ")))
      × Scans
          (has_only_one find_items.outputs)
          (remove_void_columns find_items.outputs)
          find_items.outputs
          args)
emit_row_scan_args-Scans_example = emit_row_scan_args-Scans find_items (λ e. cc e) IsPlain-items

needs_click_house_import_lem_example :
    (needs_click_house_import items_file
      ≡ any_query (λ q. not (is_empty (emit_ch_param_names quoted q))) (all_queries items_file))
    × (needs_click_house_import items_file
        ≡ any_query
            (λ q. not (is_empty (emit_ch_variant_param_names quoted q)))
            (all_queries items_file))
needs_click_house_import_lem_example = needs_click_house_import_lem quoted items_file

ch_conn_methods_of_lem_example :
    ((ch_conn_methods_of (items_file ∷ [])).exec_method ≡ is_called calls_exec (items_file ∷ []))
    × ((ch_conn_methods_of (items_file ∷ [])).query_row
        ≡ is_called calls_query_row (items_file ∷ []))
    × ((ch_conn_methods_of (items_file ∷ [])).select ≡ is_called calls_select (items_file ∷ []))
    × ((ch_conn_methods_of (items_file ∷ [])).query ≡ is_called calls_query (items_file ∷ []))
ch_conn_methods_of_lem_example = ch_conn_methods_of_lem (items_file ∷ [])

build_paginate_group-fields_example :
    IsDistinct (
      pg_names
        (build_paginate_group same_case same_case
          (codes "List")
          (list_default ∷ list_due ∷ [])).unified_inputs)
    × ((x : Text)
        → contains
            (pg_names
              (build_paginate_group same_case same_case
                (codes "List")
                (list_default ∷ list_due ∷ [])).unified_inputs)
            x
          ≡ contains (pg_names (all_inputs (list_default ∷ list_due ∷ []))) x)
    × ServesVariants quoted
        (build_paginate_group same_case same_case (codes "List") (list_default ∷ list_due ∷ []))
build_paginate_group-fields_example =
    build_paginate_group-fields quoted same_case same_case (codes "List")
      (list_default ∷ list_due ∷ []) same_case ((refl, tt), ((refl, (refl, tt)), tt))

build_paginate_group-constants_example :
    IsDistinct (
      values
        (build_paginate_group same_case same_case
          (codes "List")
          (list_default ∷ list_due ∷ [])).sort_key_consts)
    × ((x : Text)
        → contains
            (values
              (build_paginate_group same_case same_case
                (codes "List")
                (list_default ∷ list_due ∷ [])).sort_key_consts)
            x
          ≡ contains (sort_keys (list_default ∷ list_due ∷ [])) x)
    × All
        (λ (c : SortKeyConst). c.const_name ≡ const_of same_case same_case (codes "List") c.value)
        (build_paginate_group same_case same_case
          (codes "List")
          (list_default ∷ list_due ∷ [])).sort_key_consts
    × ((head : Text) × (tail : Text) × (emit_dispatcher same_case same_case
            (build_paginate_group same_case same_case (codes "List") (list_default ∷ list_due ∷ []))
            (codes "[]Item")
          ≡ head
            ++ (codes "\tswitch {\n"
                ++ (concat (
                      map
                        (case_of same_case same_case (codes "List"))
                        (list_default ∷ list_due ∷ []))
                    ++ (codes "\tdefault:\n" ++ tail)))))
build_paginate_group-constants_example =
    build_paginate_group-constants same_case same_case (codes "List") (list_default ∷ list_due ∷ [])
      (codes "[]Item")

abbrev first_ref : QueryRef
first_ref = record {
  file_name = codes "items.sql";
  query_name = codes "FindItems";
  outputs = column_named (codes "id") text_type ∷ column_named (codes "name") text_type ∷ [];
}

-- The other order, and a name that may be null.
abbrev later_ref : QueryRef
later_ref = record {
  file_name = codes "items.sql";
  query_name = codes "FindItem";
  outputs =
      column_named (codes "name") (pointer_type text_type)
      ∷ column_named (codes "id") text_type
      ∷ [];
}

merge_group-reference_example : value_of (merge_group (codes "Item") first_ref (later_ref ∷ [])) ≡ (
    if compatible first_ref.outputs (later_ref ∷ [])
    then some (map (reference (later_ref ∷ [])) first_ref.outputs)
    else none)
merge_group-reference_example =
    merge_group-reference (codes "Item") first_ref (later_ref ∷ []) (λ e. cc e)
      (((λ e. cc e), tt), (tt, tt))
