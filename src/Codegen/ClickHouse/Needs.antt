-- ===== src/Codegen/ClickHouse/Needs.antt =====
-- The imports and the methods of the connection that a package of ClickHouse queries needs.
use pggen.Prelude.{
  ◌≡◌, refl, Bool, true, false, not, ◌||◌, List, [], ◌∷◌, ◌++◌, arith, if◌then◌else◌, Bool-cases,
  inl, inr,
}
use pggen.Prelude.Text.{Text, codes, is_empty}
use pggen.Parser.Annotation.{ResultKind, many, one, exec}
use pggen.Codegen.{TemplatedParam, TemplatedQuery, TemplatedFile, is_inline_params, all_queries}
use pggen.Codegen.ClickHouse.{
  any_query, is_identifier_input, needs_click_house_import, emit_ch_uses_row_struct, ChConnMethods,
  method_step, add_method, add_methods, add_files, ch_conn_methods_of,
}
use pggen.Codegen.ClickHouse.Call.{
  named_args, closed_args, emit_ch_param_names, emit_ch_variant_param_names,
}

named_args-empty :
    (quote : Text → Text) (value_of : TemplatedParam → Text) (inputs : List TemplatedParam)
    → is_empty (closed_args quote (named_args quote value_of inputs))
      ≡ not (any_query (λ input. not (is_identifier_input input)) inputs)
unfolding named_args
named_args-empty quote value_of [] = refl
named_args-empty quote value_of (input ∷ inputs) = elim (Bool-cases (is_identifier_input input)) [
  | inl e ↦ rw e (named_args-empty quote value_of inputs)
  | inr e ↦ rw e refl
]

module _ {ℓ} {A : Type ℓ} (p q : A → Bool) (same : (x : A) → p x ≡ q x) where
  any_query-cong : (xs : List A) → any_query p xs ≡ any_query q xs
  any_query-cong [] = refl
  any_query-cong (x ∷ xs) =
      let rest = any_query-cong xs in let e = same x in ground (arith, rest, e)

-- A file is found to need the package of the ClickHouse driver exactly if the arguments that
-- are written for one of its queries are not empty, where a query is called by itself and
-- where it is called as a variant.
pub needs_click_house_import_lem :
    (quote : Text → Text) (tf : TemplatedFile)
    → (needs_click_house_import tf
        ≡ any_query (λ q. not (is_empty (emit_ch_param_names quote q))) (all_queries tf))
      × (needs_click_house_import tf
          ≡ any_query (λ q. not (is_empty (emit_ch_variant_param_names quote q))) (all_queries tf))
unfolding needs_click_house_import emit_ch_param_names emit_ch_variant_param_names
needs_click_house_import_lem quote tf = (
  any_query-cong _ _
      (λ q. flip (
        named_args-empty quote
          (λ input.
            if is_inline_params q then input.lower_name else codes "params." ++ input.upper_name)
          q.inputs))
      (all_queries tf),
  any_query-cong _ _
      (λ q. flip (named_args-empty quote (λ input. codes "params." ++ input.upper_name) q.inputs))
      (all_queries tf),
)
  where
    flip : {a b : Bool} → a ≡ not b → b ≡ not a
    flip {a} {b} h = ground (arith, h)

-- The methods that a query's generated code calls.
abbrev pub calls_exec : ResultKind → Bool → Bool
calls_exec exec row_struct = true
calls_exec one row_struct = false
calls_exec many row_struct = false

abbrev pub calls_query_row : ResultKind → Bool → Bool
calls_query_row exec row_struct = false
calls_query_row one row_struct = true
calls_query_row many row_struct = false

abbrev pub calls_select : ResultKind → Bool → Bool
calls_select exec row_struct = false
calls_select one row_struct = false
calls_select many row_struct = row_struct

abbrev pub calls_query : ResultKind → Bool → Bool
calls_query exec row_struct = false
calls_query one row_struct = false
calls_query many row_struct = not row_struct

-- Whether a query of the package calls a method.
abbrev pub is_called : (ResultKind → Bool → Bool) → List TemplatedFile → Bool
is_called calls files =
    any_query
      (λ f. any_query (λ q. calls q.result_kind (emit_ch_uses_row_struct q)) (all_queries f)) files

module _ (get : ChConnMethods → Bool) (calls : ResultKind → Bool → Bool)
    (step : (m : ChConnMethods) (q : TemplatedQuery)
      → get (add_method m q) ≡ (get m || calls q.result_kind (emit_ch_uses_row_struct q))) where
  add_methods-any :
      (m : ChConnMethods) (qs : List TemplatedQuery)
      → get (add_methods m qs)
        ≡ (get m || any_query (λ q. calls q.result_kind (emit_ch_uses_row_struct q)) qs)
  unfolding add_methods
  add_methods-any m [] = ground (arith, get m)
  add_methods-any m (q ∷ qs) =
      let rest = add_methods-any (add_method m q) qs in let e = step m q in ground (arith, rest, e)

  add_files-any :
      (m : ChConnMethods) (fs : List TemplatedFile)
      → get (add_files m fs) ≡ (get m || is_called calls fs)
  unfolding add_files
  add_files-any m [] = ground (arith, get m)
  add_files-any m (f ∷ fs) =
      let rest = add_files-any (add_methods m (all_queries f)) fs in
      let e = add_methods-any m (all_queries f) in ground (arith, rest, e)

method_step-calls :
    (m : ChConnMethods) (kind : ResultKind) (b : Bool)
    → ((method_step m kind b).exec_method ≡ (m.exec_method || calls_exec kind b))
      × ((method_step m kind b).query_row ≡ (m.query_row || calls_query_row kind b))
      × ((method_step m kind b).select ≡ (m.select || calls_select kind b))
      × ((method_step m kind b).query ≡ (m.query || calls_query kind b))
method_step-calls m exec b = ground arith
method_step-calls m one b = ground arith
method_step-calls m many true = ground arith
method_step-calls m many false = ground arith

add_method-calls :
    (m : ChConnMethods) (q : TemplatedQuery)
    → let b = emit_ch_uses_row_struct q in
      ((add_method m q).exec_method ≡ (m.exec_method || calls_exec q.result_kind b))
      × ((add_method m q).query_row ≡ (m.query_row || calls_query_row q.result_kind b))
      × ((add_method m q).select ≡ (m.select || calls_select q.result_kind b))
      × ((add_method m q).query ≡ (m.query || calls_query q.result_kind b))
unfolding add_method
add_method-calls m q = method_step-calls m q.result_kind (emit_ch_uses_row_struct q)

-- The interface of the connection has a method exactly if a query of the package, or a variant of
-- one, calls it: Exec for :exec, QueryRow for :one, and for :many Select where the items are structs
-- and Query where they are not.
pub ch_conn_methods_of_lem :
    (files : List TemplatedFile)
    → ((ch_conn_methods_of files).exec_method ≡ is_called calls_exec files)
      × ((ch_conn_methods_of files).query_row ≡ is_called calls_query_row files)
      × ((ch_conn_methods_of files).select ≡ is_called calls_select files)
      × ((ch_conn_methods_of files).query ≡ is_called calls_query files)
unfolding ch_conn_methods_of
ch_conn_methods_of_lem files = (
  add_files-any (λ m. m.exec_method) calls_exec (λ m q. (add_method-calls m q).0) _ files,
  add_files-any (λ m. m.query_row) calls_query_row (λ m q. (add_method-calls m q).1) _ files,
  add_files-any (λ m. m.select) calls_select (λ m q. (add_method-calls m q).2) _ files,
  add_files-any (λ m. m.query) calls_query (λ m q. (add_method-calls m q).3) _ files,
)
