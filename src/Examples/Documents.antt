-- ===== src/Examples/Documents.antt =====
-- llm/line_protocol.py on small documents. The reader of literals knows three of them.
use codex_py.Base.{
  Result, false, Bool, Error, err, other_error, value_error, arith, is_blank, all, length, true,
  String, [], if◌then◌else◌, nat_eq, none, ok, refl, string_eq, ◌==◌, ◌∷◌, ◌≡◌,
}
use codex_py.LineProtocol.NoTool.{normalize_no_tool}
use codex_py.State.Codec.RoundTrip.{is_valid_plan}
use codex_py.Base.Json.{bool, pos, int, str, Json}
use codex_py.State.{Plan, PlanStep}
use codex_py.LineProtocol.Plans.{decode_plan}
use codex_py.LineProtocol.Progress.{
  CompletionJudgment, decode_completion_judgment, verdict_numbers, range_from, completed,
}
use codex_py.LineProtocol.Verdicts.{decode_completion_judgment-ok, has_detail}
use codex_py.LineProtocol.Decoded.{decode_plan-ok}
use codex_py.LineProtocol.Failures.{decode_plan-rejects}
use codex_py.LineProtocol.Rejects.{RaisesOnly, rejects, parse_line_protocol-rejects}
use codex_py.LineProtocol.Codecs.{codec_of}
use codex_py.LineProtocol.{no_blocks, block}
use codex_py.LineProtocol.Parser.{parse_line_protocol}

abbrev pub recursion_error : Error
recursion_error = other_error "RecursionError"

abbrev pub loads : String → Result Json
loads s =
    if s == "1"
    then ok (int (pos 1))
    else if s == "\"x\""
    then ok (str "x")
    else if s == "true"
    then ok (bool true)
    else if s == "[[["
    then err recursion_error
    else err (value_error "Expecting value")

abbrev is_recursion_error : Error → Bool
is_recursion_error (other_error s) = true
is_recursion_error _ = false

loads-RaisesOnly : RaisesOnly is_recursion_error loads
loads-RaisesOnly s e h = ground (arith, h)

-- A literal that is nested too deeply: its exception escapes.
nested_run : parse_line_protocol loads "BEGIN ANSWER\nTEXT=[[[\nEND ANSWER" ≡ err recursion_error
unfolding parse_line_protocol codec_of
nested_run = refl

answer_run :
    parse_line_protocol loads "begin ANSWER\r\ntext=\"x\"\r\nEND_answer\n"
    ≡ ok (block "ANSWER" (("TEXT", str "x" ∷ []) ∷ []) no_blocks)
unfolding parse_line_protocol codec_of
answer_run = refl

abbrev pub plan_document : String
plan_document =
    "BEGIN PLAN\nREVISION=1\nGOAL=\"x\"\nBEGIN STEP\nID=\"x\"\nINTENT=\"x\"\nCOMPLETION_CRITERION=\"x\"\nEND STEP\nEND PLAN"

abbrev pub x_step : PlanStep
x_step = record { id = "x"; intent = "x"; completion_criterion = "x" }

abbrev pub x_plan : Plan
x_plan = record { revision = 1; goal = "read"; steps = x_step ∷ [] }

-- The goal of the document is not the goal of the plan.
pub plan_run : decode_plan loads plan_document "read" 1 ≡ ok x_plan
unfolding decode_plan codec_of parse_line_protocol is_blank
plan_run = refl

decode_plan-ok_example :
    (x_plan.revision ≡ 1) × (x_plan.goal ≡ "read") × (is_valid_plan x_plan ≡ true)
decode_plan-ok_example = decode_plan-ok loads plan_document "read" 1 x_plan plan_run

decode_plan-rejects_example :
    rejects is_recursion_error (decode_plan loads plan_document "read" 2) ≡ true
decode_plan-rejects_example =
    decode_plan-rejects is_recursion_error loads plan_document "read" 2 loads-RaisesOnly

parse_line_protocol-rejects_example :
    rejects is_recursion_error (parse_line_protocol loads "BEGIN ANSWER\nTEXT=[[[\nEND ANSWER")
    ≡ true
parse_line_protocol-rejects_example =
    parse_line_protocol-rejects is_recursion_error loads "BEGIN ANSWER\nTEXT=[[[\nEND ANSWER"
      loads-RaisesOnly

abbrev judgment_document : String
judgment_document =
    "BEGIN COMPLETION_PROGRESS\nALL_COMPLETED=true\nBEGIN CRITERION_VERDICT\nNUMBER=1\nVERIFIED=true\nEVIDENCE=\"x\"\nEND CRITERION_VERDICT\nEND COMPLETION_PROGRESS"

abbrev judgment : CompletionJudgment
judgment = record { verdicts = (1, true, "x") ∷ []; all_completed = true; answer = none }

judgment_run : decode_completion_judgment loads judgment_document 1 ≡ ok judgment
unfolding decode_completion_judgment codec_of parse_line_protocol is_blank
judgment_run = refl

decode_completion_judgment-ok_example :
    (verdict_numbers judgment.verdicts ≡ range_from 1 1)
    × (all has_detail judgment.verdicts ≡ true)
    × (judgment.all_completed ≡ all (λ p. p.1) judgment.verdicts)
    × (judgment.all_completed ≡ true → length (completed judgment) ≡ 1)
decode_completion_judgment-ok_example =
    decode_completion_judgment-ok loads judgment_document 1 judgment judgment_run

fenced_run : normalize_no_tool "So:\n```No_Tool \n```\n" ≡ "BEGIN NO_TOOL\nEND NO_TOOL"
unfolding normalize_no_tool
fenced_run = refl
