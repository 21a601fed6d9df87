-- ===== src/LineProtocol/Codecs.antt =====
-- llm/line_protocol.py: `CODEC_REGISTRY` and the check of a block against it.
use codex_py.Base.{
  Bool, List, Option, Result, String, [], any, contains, err, if◌then◌else◌, key_error, length, ltb,
  nat_eq, none, not, some, string_eq, ◌&&◌, ◌<>◌, ◌==◌, ◌∷◌, ◌>>=◌, ◌>>◌, ok,
}
use codex_py.LineProtocol.{
  no_blocks, more, Blocks, names, blocks, subset, type_of, block, require, ParsedBlock, Values,
}
use codex_py.Base.Json.{Json}

pub record Codec : Type 0 where
  pub fields : List String
  pub scalar_arrays : List String
  pub children : List String

abbrev codec : List String → List String → List String → Codec
codec fields scalar_arrays children = record {
  fields = fields;
  scalar_arrays = scalar_arrays;
  children = children;
}

-- The literal has COMPLETION_PROGRESS twice, and Python keeps the second.
abbrev pub codec_registry : List (String × Codec)
codec_registry =
    ("PLAN", codec ("REVISION" ∷ "GOAL" ∷ []) [] ("STEP" ∷ []))
    ∷ ("STEP", codec ("ID" ∷ "INTENT" ∷ "COMPLETION_CRITERION" ∷ []) [] [])
    ∷ ("NO_TOOL", codec [] [] [])
    ∷ ("ANSWER", codec ("TEXT" ∷ []) [] [])
    ∷ ("REACT_DECISION", codec ("STATUS" ∷ "ANSWER" ∷ "ERROR" ∷ []) [] [])
    ∷ ("GOAL_JUDGMENT", codec ("COMPLETED" ∷ "EVIDENCE" ∷ "GAP" ∷ []) [] [])
    ∷ (
      "COMPLETION_PROGRESS",
      codec ("ALL_COMPLETED" ∷ "ANSWER" ∷ []) [] ("CRITERION_VERDICT" ∷ "COMPLETED_CRITERION" ∷ []),
    )
    ∷ ("CRITERION_VERDICT", codec ("NUMBER" ∷ "VERIFIED" ∷ "EVIDENCE" ∷ "GAP" ∷ []) [] [])
    ∷ ("GOAL_COMPLETION", codec ("ANSWER" ∷ "GOAL_SATISFIED" ∷ []) [] [])
    ∷ ("STEP_COMPLETION_PROGRESS", codec ("ALL_COMPLETED" ∷ []) [] ("COMPLETED_CRITERION" ∷ []))
    ∷ ("COMPLETED_CRITERION", codec ("NUMBER" ∷ "EVIDENCE" ∷ []) [] [])
    ∷ (
      "STEP_COMPLETION",
      codec
          ("COMPLETED" ∷ "COMPLETION_CRITERION_MET" ∷ "RESULT" ∷ "FILES_READ" ∷ "FILES_MODIFIED"
            ∷ "OBSERVATIONS" ∷ [])
          ("FILES_READ" ∷ "FILES_MODIFIED" ∷ "OBSERVATIONS" ∷ []) [],
    )
    ∷ (
      "TASK_ANALYSIS",
      codec
          ("TASK_TYPE" ∷ "GOAL_CLARITY" ∷ "NEEDS_TOOLS" ∷ "EXPECTED_STEPS" ∷ "EXPECTED_HORIZON"
            ∷ "REASONING_SUMMARY" ∷ "COMPLETION_CRITERION" ∷ [])
          ("COMPLETION_CRITERION" ∷ []) [],
    )
    ∷ (
      "OBSERVATION",
      codec
          ("ROUND" ∷ "SOURCE_ROUND_START" ∷ "SOURCE_ROUND_END" ∷ "AFFECTS_CURRENT_DECISION"
            ∷ "AFFECTED_TARGETS" ∷ [])
          ("AFFECTED_TARGETS" ∷ []) ("EVIDENCE" ∷ []),
    )
    ∷ ("EVIDENCE", codec ("CATEGORY" ∷ "TEXT" ∷ "TOOL_CALL_ID" ∷ []) ("TOOL_CALL_ID" ∷ []) [])
    ∷ []

unfoldable pub find_codec : String → List (String × Codec) → Option Codec
find_codec t [] = none
find_codec t ((k, c) ∷ rest) = let later = find_codec t rest in if k == t then some c else later

unfoldable pub codec_of : String → Option Codec
unfolding find_codec
codec_of t = find_codec t codec_registry

-- CODEC_REGISTRY[type]
abbrev pub or_unregistered : String → Option Codec → Result Codec
or_unregistered t none = err (key_error t)
or_unregistered t (some c) = ok c

abbrev pub is_repeated : List String → String × List Json → Bool
is_repeated arrays (path, values) = ltb 1 (length values) && not (contains arrays path)

abbrev pub check_fields : String → Codec → Values → Result (Unit {0})
check_fields t c fs = do
  require (subset (names fs) c.fields) (t <> " contains undeclared fields")
  require (not (any (is_repeated c.scalar_arrays) fs)) (t <> " contains a repeated non-array field")

abbrev pub check_children : String → Codec → List ParsedBlock → Result (Unit {0})
check_children t c cs =
    require (not (any (λ b. not (contains c.children (type_of b))) cs))
      (t <> " contains an undeclared child block")

-- _validate_registered_fields
unfoldable mutual
  pub validate_registered_fields : ParsedBlock → Result (Unit {0})
  validate_registered_fields (block t fs cs) = do
    c ← or_unregistered t (codec_of t)
    check_fields t c fs
    check_children t c (blocks cs)
    validate_all cs

  pub validate_all : Blocks → Result (Unit {0})
  validate_all no_blocks = ok tt
  validate_all (more b bs) = do validate_registered_fields b; validate_all bs
