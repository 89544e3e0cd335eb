-- ===== src/GreenCtx/Trace/Examples.antt =====
-- Tests of the trace parser on a file of tests/data/greenctx, and instances of its theorems.
use morphling.Prelude.{get_last_or, ◌≡◌, refl, List, [], ◌∷◌, arith}
use morphling.Prelude.Int.{ℤ, pos, scale}
use morphling.Str.{
  Str, codes, strip, split, starts_with, after_first, drop_while, rstrip, is_space, int_of,
  signed_value, digits_value,
}
use morphling.GreenCtx.Trace.{
  parse_trace_file, parse_lines, parse_line, directive, after_header, first_int, row, append_row,
  sm_count_at_step, sm_count_at_time, sm_count_loop, scale_of,
}
use morphling.GreenCtx.Trace.Rows.{rows, parse_trace_file-rows}
use morphling.GreenCtx.Trace.Lookup.{due, sm_count_at_step-last}

abbrev wall_trace : List Str
wall_trace =
    codes "# greenctx_trace v2"
    ∷ codes "# time_unit=s"
    ∷ codes "timestamp,num_sms,tag"
    ∷ codes "0,8,warmup"
    ∷ codes "1,32,ramp_up"
    ∷ codes "bad"
    ∷ codes "2,64,full"
    ∷ []

abbrev wall_entries : List (ℤ × ℤ)
wall_entries = (pos 0, pos 8) ∷ (pos 1, pos 32) ∷ (pos 2, pos 64) ∷ []

entries-wall_trace : (parse_trace_file wall_trace).entries ≡ wall_entries
unfolding parse_trace_file parse_lines parse_line directive after_header first_int row append_row
    strip split starts_with after_first drop_while rstrip is_space int_of signed_value digits_value
entries-wall_trace = refl

unit-wall_trace : (parse_trace_file wall_trace).time_unit ≡ codes "s"
unfolding parse_trace_file parse_lines parse_line directive after_header first_int row append_row
    strip split starts_with after_first drop_while rstrip is_space int_of signed_value digits_value
unit-wall_trace = refl

count_at_time : sm_count_at_time wall_entries (pos 1_500_000) (codes "s") (pos 4) ≡ pos 32
unfolding sm_count_at_time sm_count_loop scale_of scale
count_at_time = refl

parse_trace_file-rows_example : (parse_trace_file wall_trace).entries ≡ rows wall_trace
parse_trace_file-rows_example = parse_trace_file-rows wall_trace

sm_count_at_step-last_example :
    sm_count_at_step wall_entries (pos 1) (pos 4) ≡ get_last_or (due wall_entries (pos 1)) (pos 4)
sm_count_at_step-last_example = sm_count_at_step-last wall_entries (pos 1) (pos 4) (omega arith)
