-- ===== src/LineProtocol/Verdicts.antt =====
-- llm/line_protocol.py: what a decoded completion judgment says.
use codex_py.Base.{
  Result, >>=-eq-ok, Bool, all, if◌then◌else◌, leb, length, nat_eq, string_eq, traverse, ◌&&◌, ◌==◌,
  List, String, [], arith, false, is_blank, is_empty, not, ok, refl, strip, true, ℕ, ◌∙◌, ◌∷◌, ◌≡◌,
  lstrip, rstrip,
}
use codex_py.LineProtocol.{same_set, children_of, single, require, subset, ParsedBlock}
use codex_py.LineProtocol.Progress.{
  completed_of, is_judgment, numbered, range_from, verdict_keys, CompletionJudgment, bool_eq,
  decode_completion_judgment, decode_verdict, numbers_eq, completed, verdict_numbers,
}
use codex_py.LineProtocol.Decode.{boolean, field_names, is_leaf, nonempty_text}
use codex_py.LineProtocol.Parser.{parse_line_protocol}
use codex_py.Base.Json.{Json}

is_blank_of_empty : (s : String) → is_empty s ≡ true → is_blank s ≡ true
unfolding is_blank
is_blank_of_empty String.[] h = refl
is_blank_of_empty (String.◌∷◌ c s) h = cc

is_blank-rstrip : (s : String) → is_blank (rstrip s) ≡ is_blank s
unfolding is_blank rstrip
is_blank-rstrip String.[] = refl
is_blank-rstrip (String.◌∷◌ c s) =
    let ih = is_blank-rstrip s in let empty = is_blank_of_empty (rstrip s) in ground arith

is_blank-lstrip : (s : String) → is_blank (lstrip s) ≡ is_blank s
unfolding is_blank lstrip
is_blank-lstrip String.[] = refl
is_blank-lstrip (String.◌∷◌ c s) = ground (arith, is_blank-lstrip s)

is_blank-strip : (s : String) → is_blank (strip s) ≡ is_blank s
unfolding strip
is_blank-strip s = is_blank-rstrip (lstrip s) ∙ is_blank-lstrip s

abbrev pub has_detail : ℕ × Bool × String → Bool
has_detail (n, verified, detail) = not (is_blank detail)

numbers_eq→eq : (xs ys : List ℕ) → numbers_eq xs ys ≡ true → xs ≡ ys
numbers_eq→eq [] [] h = refl
numbers_eq→eq [] (y ∷ ys) h = cc
numbers_eq→eq (x ∷ xs) [] h = cc
numbers_eq→eq (x ∷ xs) (y ∷ ys) h = ground (arith, numbers_eq→eq xs ys)

nonempty_text-ok :
    (message : String) (v : Json) (s : String) → nonempty_text message v ≡ ok s → is_blank s ≡ false
nonempty_text-ok message v s h = ground arith

decode_verdict-has_detail :
    (count : ℕ) (b : ParsedBlock) (p : ℕ × Bool × String)
    → decode_verdict count b ≡ ok p
    → has_detail p ≡ true
unfolding decode_verdict
decode_verdict-has_detail count b p h =
    let leaf = is_leaf b && subset (field_names b) verdict_keys in
    let (_, _, h₁) = >>=-eq-ok (require leaf "CRITERION_VERDICT fields are invalid") _ h in
    let (v, _, h₂) = >>=-eq-ok (single b "NUMBER") _ h₁ in
    let (w, _, h₃) = >>=-eq-ok (single b "VERIFIED") _ h₂ in
    let (n, _, h₄) = >>=-eq-ok (numbered "criterion number is out of range" count v) _ h₃ in
    let (verified, _, h₅) = >>=-eq-ok (boolean "criterion VERIFIED must be a boolean" w) _ h₄ in
    let expected : String = if verified then "EVIDENCE" else "GAP" in
    let fits = same_set (field_names b) ("NUMBER" ∷ "VERIFIED" ∷ expected ∷ []) in
    let (_, _, h₆) =
      >>=-eq-ok (require fits "criterion verdict must contain exactly one evidence or gap") _ h₅ in
    let (d, _, h₇) = >>=-eq-ok (single b expected) _ h₆ in
    let (detail, given, h₈) =
      >>=-eq-ok (nonempty_text "criterion verdict requires non-empty evidence or gap" d) _ h₇ in
    let stated = nonempty_text-ok _ d detail given in
    ground (arith, h₈, is_blank-strip detail, stated)

traverse-has_detail :
    (count : ℕ) (bs : List ParsedBlock) (ps : List (ℕ × Bool × String))
    → traverse (decode_verdict count) bs ≡ ok ps
    → all has_detail ps ≡ true
traverse-has_detail count [] ps h = ground arith
traverse-has_detail count (b ∷ bs) ps h =
    let (p, read, h₁) = >>=-eq-ok (decode_verdict count b) _ h in
    let (rest, reads, h₂) = >>=-eq-ok (traverse (decode_verdict count) bs) _ h₁ in
    ground
      (arith, h₂, decode_verdict-has_detail count b p read, traverse-has_detail count bs rest reads)

verified_all :
    (ps : List (ℕ × Bool × String))
    → all (λ p. p.1) ps ≡ true
    → length (completed_of ps) ≡ length ps
unfolding completed_of
verified_all [] h = refl
verified_all ((n, verified, detail) ∷ ps) h = ground (arith, verified_all ps)

bool_eq→eq : (a b : Bool) → bool_eq a b ≡ true → a ≡ b
bool_eq→eq a b h = ground arith

-- A judgment that `decode_completion_judgment` returns has one verdict for each criterion, with the
-- numbers 1, 2, ..., count in this order, each with evidence or a gap that is not blank, says that
-- all are completed exactly when every verdict is verified, and then lists every criterion as
-- completed.
pub decode_completion_judgment-ok :
    (loads : String → Result Json) (document : String) (count : ℕ) (j : CompletionJudgment)
    → decode_completion_judgment loads document count ≡ ok j
    → (verdict_numbers j.verdicts ≡ range_from 1 count)
      × (all has_detail j.verdicts ≡ true)
      × (j.all_completed ≡ all (λ p. p.1) j.verdicts)
      × (j.all_completed ≡ true → length (completed j) ≡ count)
unfolding decode_completion_judgment completed
decode_completion_judgment-ok loads document count j h =
    let (_, _, h₁) =
      >>=-eq-ok (require (leb 1 count) "criterion_count must be a positive integer") _ h in
    let (b, _, h₂) = >>=-eq-ok (parse_line_protocol loads document) _ h₁ in
    let (_, _, h₃) =
      >>=-eq-ok (require (is_judgment b) "COMPLETION_PROGRESS fields are invalid") _ h₂ in
    let (v, _, h₄) = >>=-eq-ok (single b "ALL_COMPLETED") _ h₃ in
    let (all_completed, _, h₅) = >>=-eq-ok (boolean "ALL_COMPLETED must be a boolean" v) _ h₄ in
    let (ps, read, h₆) = >>=-eq-ok (traverse (decode_verdict count) (children_of b)) _ h₅ in
    let (_, covered, h₇) =
      >>=-eq-ok
        (require (length ps == count) "criterion verdict must cover every criterion exactly once") _
        h₆ in
    let (_, ordered, h₈) =
      >>=-eq-ok
        (require (numbers_eq (verdict_numbers ps) (range_from 1 count))
          "criterion verdict numbers must be ordered and unique")
        _ h₇ in
    let (_, matches, h₉) =
      >>=-eq-ok
        (require (bool_eq all_completed (all (λ p. p.1) ps))
          "ALL_COMPLETED must match locally recorded criterion state")
        _ h₈ in
    let details = traverse-has_detail count (children_of b) ps read in
    let numbers = numbers_eq→eq (verdict_numbers ps) (range_from 1 count) in
    let same = bool_eq→eq all_completed (all (λ p. p.1) ps) in
    let every = verified_all ps in
    (
      ground (arith, h₉, ordered, numbers),
      ground (arith, h₉, details),
      ground (arith, h₉, matches, same),
      λ done. ground (arith, h₉, matches, same, every, covered),
    )
