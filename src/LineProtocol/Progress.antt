-- ===== src/LineProtocol/Progress.antt =====
-- llm/line_protocol.py: the decoders of judgments on completion criteria.
use codex_py.Base.{
  Bool, Result, List, Option, String, [], all, contains, distinct, false, if◌then◌else◌, is_blank,
  leb, length, map, nat_eq, none, not, string_eq, strip, suc, traverse, true, zero, ℕ, ◌&&◌, ◌++◌,
  ◌==◌, ◌||◌, ◌∷◌, ◌>>=◌, ◌>>◌, ok,
}
use codex_py.Base.Json.{null, str, pos, int, Json}
use codex_py.LineProtocol.Parser.{is_nil, parse_line_protocol}
use codex_py.Recovery.Memory.{count_distinct}
use codex_py.LineProtocol.Decode.{boolean, nonempty_text, field_names, has_type, is_leaf}
use codex_py.LineProtocol.{children_of, reject, same_set, subset, ParsedBlock, require, single}

pub record CompletionJudgment : Type 0 where
  pub verdicts : List (ℕ × Bool × String)
  pub all_completed : Bool
  pub answer : Option String

unfoldable pub completed_of : List (ℕ × Bool × String) → List (ℕ × String)
completed_of [] = []
completed_of ((n, verified, detail) ∷ rest) =
    let later = completed_of rest in if verified then (n, detail) ∷ later else later

-- CompletionJudgment.completed
unfoldable pub completed : CompletionJudgment → List (ℕ × String)
unfolding completed_of
completed j = completed_of j.verdicts

-- type(number) is int and 1 <= number <= count
abbrev pub numbered : String → ℕ → Json → Result ℕ
numbered message count (int (pos n)) = do require (leb 1 n && leb n count) message; ok n
numbered message count _ = reject message

abbrev pub evidence_keys : List String
evidence_keys = "NUMBER" ∷ "EVIDENCE" ∷ []

-- The body of the loop of `decode_completion_progress`.
unfoldable pub decode_completed : ℕ → List ℕ → ParsedBlock → Result (ℕ × String)
unfolding single strip
decode_completed count recorded b = do
  require (is_leaf b && same_set (field_names b) evidence_keys)
      "COMPLETED_CRITERION fields are invalid"
  v ← single b "NUMBER"
  w ← single b "EVIDENCE"
  n ← numbered "completed criterion number is out of range" count v
  require (not (contains recorded n)) "completed criterion is invalid or already recorded"
  evidence ← nonempty_text "completed criterion is invalid or already recorded" w
  ok (n, strip evidence)

-- The body of the loop of `decode_step_completion_progress`.
unfoldable pub decode_step_completed : ParsedBlock → Result (ℕ × String)
unfolding single strip
decode_step_completed b = do
  require (is_leaf b && same_set (field_names b) evidence_keys)
      "COMPLETED_CRITERION fields are invalid"
  v ← single b "NUMBER"
  w ← single b "EVIDENCE"
  n ← numbered "Plan step completion criterion must be numbered 1" 1 v
  evidence ← nonempty_text "completed criterion requires non-empty evidence" w
  ok (n, strip evidence)

abbrev pub verdict_keys : List String
verdict_keys = "NUMBER" ∷ "VERIFIED" ∷ "EVIDENCE" ∷ "GAP" ∷ []

-- The body of the loop of `decode_completion_judgment`.
unfoldable pub decode_verdict : ℕ → ParsedBlock → Result (ℕ × Bool × String)
unfolding single strip
decode_verdict count b = do
  require (is_leaf b && subset (field_names b) verdict_keys) "CRITERION_VERDICT fields are invalid"
  v ← single b "NUMBER"
  w ← single b "VERIFIED"
  n ← numbered "criterion number is out of range" count v
  verified ← boolean "criterion VERIFIED must be a boolean" w
  let expected : String = if verified then "EVIDENCE" else "GAP"
  require (same_set (field_names b) ("NUMBER" ∷ "VERIFIED" ∷ expected ∷ []))
      "criterion verdict must contain exactly one evidence or gap"
  d ← single b expected
  detail ← nonempty_text "criterion verdict requires non-empty evidence or gap" d
  ok (n, verified, strip detail)

abbrev pub numbers_of : List (ℕ × String) → List ℕ
numbers_of = map (λ p. p.0)

abbrev pub verdict_numbers : List (ℕ × Bool × String) → List ℕ
verdict_numbers = map (λ p. p.0)

-- list(range(first, first + count))
abbrev pub range_from : ℕ → ℕ → List ℕ
range_from first zero = []
range_from first (suc count) = first ∷ range_from (suc first) count

abbrev pub numbers_eq : List ℕ → List ℕ → Bool
numbers_eq [] [] = true
numbers_eq (x ∷ xs) (y ∷ ys) = x == y && numbers_eq xs ys
numbers_eq _ _ = false

abbrev pub bool_eq : Bool → Bool → Bool
bool_eq true b = b
bool_eq false b = not b

-- The optional ANSWER of a completed judgment, which may also be null.
abbrev check_answer : ParsedBlock → Bool → Result (Unit {0})
unfolding single
check_answer b false = ok tt
check_answer b true = do
  v ← single b "ANSWER"
  elim v [
    | null ↦ ok tt
    | str s ↦ require (not (is_blank s)) "completed judgment ANSWER must be non-empty"
    | _ ↦ reject "completed judgment ANSWER must be non-empty"
  ]

abbrev pub is_judgment : ParsedBlock → Bool
is_judgment b =
    has_type b "COMPLETION_PROGRESS"
    && (same_set (field_names b) ("ALL_COMPLETED" ∷ [])
        && all (λ c. has_type c "CRITERION_VERDICT") (children_of b))

module _ (loads : String → Result Json) where
  unfoldable pub decode_completion_progress : String → ℕ → List ℕ → Result (List (ℕ × String))
  unfolding single decode_completed
  decode_completion_progress document count recorded = do
    b ← parse_line_protocol loads document
    require
        (has_type b "COMPLETION_PROGRESS"
          && (subset (field_names b) ("ALL_COMPLETED" ∷ "ANSWER" ∷ [])
              && all (λ c. has_type c "COMPLETED_CRITERION") (children_of b)))
        "COMPLETION_PROGRESS fields are invalid"
    v ← single b "ALL_COMPLETED"
    all_completed ← boolean "ALL_COMPLETED must be a boolean" v
    judgments ← traverse (decode_completed count recorded) (children_of b)
    let numbers = numbers_of judgments
    require (distinct numbers) "completed criterion numbers must be distinct"
    require (bool_eq all_completed (count_distinct (recorded ++ numbers) == count))
        "ALL_COMPLETED must match locally recorded criterion state"
    let answered = contains (field_names b) "ANSWER"
    require (not (answered && not all_completed)) "incomplete judgment cannot include ANSWER"
    check_answer b (all_completed && answered)
    ok judgments

  unfoldable pub decode_step_completion_progress : String → Bool → Result (List (ℕ × String) × Bool)
  unfolding single decode_step_completed
  decode_step_completion_progress document already = do
    b ← parse_line_protocol loads document
    require
        (has_type b "STEP_COMPLETION_PROGRESS"
          && (same_set (field_names b) ("ALL_COMPLETED" ∷ [])
              && all (λ c. has_type c "COMPLETED_CRITERION") (children_of b)))
        "STEP_COMPLETION_PROGRESS fields are invalid"
    v ← single b "ALL_COMPLETED"
    all_completed ← boolean "ALL_COMPLETED must be a boolean" v
    require (not already) "Plan step completion criterion was already recorded"
    judgments ← traverse decode_step_completed (children_of b)
    require (leb (length judgments) 1)
        "Plan step completion criterion must be reported at most once"
    require
        (bool_eq all_completed (not (is_nil judgments)) || (not all_completed && is_nil judgments))
        "ALL_COMPLETED must match locally recorded criterion state"
    require (not (already && all_completed))
        "completed Plan step criterion cannot be reported again"
    ok (judgments, all_completed)

  unfoldable pub decode_completion_judgment : String → ℕ → Result CompletionJudgment
  unfolding single decode_verdict
  decode_completion_judgment document count = do
    require (leb 1 count) "criterion_count must be a positive integer"
    b ← parse_line_protocol loads document
    require (is_judgment b) "COMPLETION_PROGRESS fields are invalid"
    v ← single b "ALL_COMPLETED"
    all_completed ← boolean "ALL_COMPLETED must be a boolean" v
    judgments ← traverse (decode_verdict count) (children_of b)
    require (length judgments == count) "criterion verdict must cover every criterion exactly once"
    require (numbers_eq (verdict_numbers judgments) (range_from 1 count))
        "criterion verdict numbers must be ordered and unique"
    require (bool_eq all_completed (all (λ p. p.1) judgments))
        "ALL_COMPLETED must match locally recorded criterion state"
    ok (record { verdicts = judgments; all_completed = all_completed; answer = none })
