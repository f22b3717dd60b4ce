-- ===== src/Ch/Params/Invariant.antt =====
-- What the callbacks of `scanSQL` keep invariant holds of what it returns, and it comes to an end.
use pggen.Prelude.{ℕ, zero, suc, ◌<◌, inl, inr, [], ◌∷◌, arith, ◌==◌, length, Bool-cases}
use pggen.Prelude.Result.{Result}
use pggen.Prelude.Text.{Text}
use pggen.Ch.Statements.Segments.{comment, literal, byte, view}
use pggen.Ch.Params.{Param, ScanError, emit_text, scan_loop, scan_sql}
use pggen.Ch.Params.Scan.{
  Ensures, scanned, Ensures-bind, IsParam, read_param-Ensures, scan_loop_comment, scan_loop_literal,
  scan_loop_param, scan_loop_byte,
}

module _ {ℓ κ} {S : Type ℓ} (on_text : Text → S → S) (on_param : Param → S → Result ScanError S)
    (I : S → Type κ) (text_keeps : (t : Text) (st : S) → I st → I (on_text t st))
    (param_keeps : (p : Param) (st : S) → IsParam p → I st → Ensures I (on_param p st)) where
  emit_keeps : (t : Text) (st : S) → I st → I (emit_text on_text on_param t st)
  emit_keeps [] st h = h
  emit_keeps (c ∷ t) st h = text_keeps (c ∷ t) st h

  scan_loop-Ensures :
      (f : ℕ) (sql text : Text) (st : S)
      → length sql < f
      → I st
      → Ensures I (scan_loop on_text on_param f sql text st)
  scan_loop-Ensures zero sql text st lt h = absurd (omega arith)
  scan_loop-Ensures (suc f) [] text st lt h = unfold scan_loop in scanned (emit_keeps text st h)
  scan_loop-Ensures (suc f) (c ∷ s) text st lt h = elim (view c s) [
    | comment {rest = rest} e _ shorter ↦
        rw (scan_loop_comment on_text on_param f c s text st e)
          (scan_loop-Ensures f rest _ st (omega arith) h)
    | literal {rest = rest} e e' _ shorter ↦
        rw (scan_loop_literal on_text on_param f c s text st e e')
          (scan_loop-Ensures f rest _ st (omega arith) h)
    | byte e e' ↦ elim (Bool-cases (c == b'{')) [
      | inl open_brace ↦ rw (scan_loop_param on_text on_param f c s text st e e' open_brace) (
          Ensures-bind (read_param-Ensures s) λ (p, rest) (found, shorter).
            Ensures-bind (param_keeps p _ found (emit_keeps text st h))
              λ st' h'. scan_loop-Ensures f rest [] st' (omega arith) h')
      | inr other ↦
          rw (scan_loop_byte on_text on_param f c s text st e e' other)
            (scan_loop-Ensures f s _ st (omega arith) h)
    ]
  ]

  pub scan_sql-Ensures : (sql : Text) (st : S) → I st → Ensures I (scan_sql on_text on_param sql st)
  unfolding scan_sql
  scan_sql-Ensures sql st h = scan_loop-Ensures (suc (length sql)) sql [] st (omega arith) h
