-- ===== src/LineProtocol/Rejects.antt =====
-- llm/line_protocol.py: what the parser raises.
use codex_py.Base.{
  Result-cases, Bool-cases, Option-cases, any, contains, eq_iff, inl, inr, is_empty, nat_eq, none,
  not, string_eq, strip, subst, ◌<>◌, ◌==◌, ◌||◌, List, Result, Bool, Error, Option, String, [],
  all, arith, err, false, is_some, line_protocol_error, ok, refl, some, true, ◌&&◌, ◌>>=◌, ◌∷◌, ◌≡◌,
}
use codex_py.TextStream.{is_value_error}
use codex_py.LineProtocol.Parser.{
  initial, finish, parse_line_protocol, is_nil, begin_block, end_block, or_invalid, read_boundary,
  read_scalar, ParserState, read_line, read_lines,
}
use codex_py.LineProtocol.Lines.{lines_of, boundary, is_strict_name, scalar, is_comment}
use codex_py.LineProtocol.{
  no_blocks, more, Blocks, names, block, subset, type_of, ParsedBlock, Values, require, blocks,
}
use codex_py.LineProtocol.Codecs.{
  is_repeated, validate_all, check_children, check_fields, validate_registered_fields,
  codec_registry, Codec, codec_of, find_codec,
}
use codex_py.Base.Json.{Json}

abbrev pub is_rejection : Error → Bool
is_rejection (line_protocol_error message) = true
is_rejection _ = false

-- It returns, raises LineProtocolError, or raises an error that `escaping` names.
abbrev pub rejects {ℓ} : {A : Type ℓ} → (Error → Bool) → Result A → Bool
rejects escaping (ok a) = true
rejects escaping (err e) = is_rejection e || escaping e

-- What the reader of literals raises beyond ValueError.
abbrev pub RaisesOnly : (Error → Bool) → (String → Result Json) → Type 0
RaisesOnly escaping loads =
    (s : String) (e : Error) → loads s ≡ err e → (is_value_error e || escaping e) ≡ true

required : (t : Bool) (message : String) → require t message ≡ ok tt → t ≡ true
required t message h = ground arith

-- Every type that a codec admits as a child is registered.
abbrev children_known : List (String × Codec) → Bool
children_known [] = true
children_known ((k, c) ∷ rest) = all (λ t. is_some (codec_of t)) c.children && children_known rest

children_known_all : children_known codec_registry ≡ true
unfolding codec_of
children_known_all = refl

find_codec-children :
    (t : String) (registry : List (String × Codec)) (c : Codec)
    → children_known registry ≡ true
    → find_codec t registry ≡ some c
    → all (λ t'. is_some (codec_of t')) c.children ≡ true
unfolding find_codec
find_codec-children t [] c known h = cc
find_codec-children t ((k, d) ∷ rest) c known h = ground (arith, find_codec-children t rest c)

codec_of-children :
    (t : String) (c : Codec)
    → codec_of t ≡ some c
    → all (λ t'. is_some (codec_of t')) c.children ≡ true
codec_of-children t c h =
    find_codec-children t codec_registry c children_known_all (unfold codec_of in h)

known : String → Bool
known t = is_some (codec_of t)

all-contains :
    (p : String → Bool) (xs : List String) (t : String)
    → all p xs ≡ true
    → contains xs t ≡ true
    → p t ≡ true
all-contains p [] t h k = cc
all-contains p (x ∷ xs) t h k = elim (Bool-cases (x == t)) [
  | inl same ↦ subst (λ y. p y ≡ true) ((eq_iff x t).0 same) (ground arith)
  | inr other ↦ all-contains p xs t (ground arith) (ground (arith, other))
]

admitted-known :
    (p : String → Bool) (xs : List String) (bs : List ParsedBlock)
    → all p xs ≡ true
    → any (λ b. not (contains xs (type_of b))) bs ≡ false
    → all (λ b. p (type_of b)) bs ≡ true
admitted-known p xs [] h k = refl
admitted-known p xs (b ∷ bs) h k =
    ground (arith, all-contains p xs (type_of b) h, admitted-known p xs bs h)

check_children-ok :
    (t : String) (c : Codec) (bs : List ParsedBlock)
    → check_children t c bs ≡ ok tt
    → any (λ b. not (contains c.children (type_of b))) bs ≡ false
check_children-ok t c bs h = ground arith

module _ (escaping : Error → Bool) where
  pub rejects-bind {ℓ κ} :
      {A : Type ℓ} {B : Type κ} (m : Result A) (f : A → Result B)
      → rejects escaping m ≡ true
      → ((a : A) → m ≡ ok a → rejects escaping (f a) ≡ true)
      → rejects escaping (m >>= f) ≡ true
  rejects-bind (ok a) f h k = k a refl
  rejects-bind (err e) f h k = h

  pub rejects-require : (t : Bool) (message : String) → rejects escaping (require t message) ≡ true
  rejects-require true message = refl
  rejects-require false message = refl

  begin_block-rejects : (t : String) (s : ParserState) → rejects escaping (begin_block t s) ≡ true
  unfolding begin_block
  begin_block-rejects t s =
      rejects-bind (require (is_strict_name t) "invalid block type") _
        (rejects-require (is_strict_name t) "invalid block type")
        (λ _ _.
          rejects-bind
            (require (not (is_nil s.stack && is_some s.root)) "multiple top-level blocks") _
            (rejects-require (not (is_nil s.stack && is_some s.root)) "multiple top-level blocks")
            (λ _ _. refl))

  end_block-rejects :
      (t : String) (stack : List ParsedBlock) (root : Option ParsedBlock)
      → rejects escaping (end_block t stack root) ≡ true
  unfolding end_block
  end_block-rejects t [] root = refl
  end_block-rejects t (b ∷ []) root = ground arith
  end_block-rejects t (b ∷ parent ∷ stack) root = ground arith

  or_invalid-rejects :
      (loads : String → Result Json) (path literal : String)
      → RaisesOnly escaping loads
      → rejects escaping (or_invalid path (loads literal)) ≡ true
  or_invalid-rejects loads path literal only = elim (Result-cases (loads literal)) [
    | inl (e, bad) ↦ ground (arith, bad, only literal e bad)
    | inr (v, good) ↦ rw good refl
  ]

  module _ (loads : String → Result Json) (only : RaisesOnly escaping loads) where
    read_scalar-rejects :
        (o : Option (String × String)) (stack : List ParsedBlock) (root : Option ParsedBlock)
        → rejects escaping (read_scalar loads o stack root) ≡ true
    unfolding read_scalar
    read_scalar-rejects none stack root = refl
    read_scalar-rejects (some (path, literal)) [] root = refl
    read_scalar-rejects (some (path, literal)) (b ∷ stack) root =
        let message = "whitespace around JSON literal for " <> path in
        rejects-bind (require (literal == strip literal) message) _
          (rejects-require (literal == strip literal) message)
          (λ _ _.
            rejects-bind (or_invalid path (loads literal)) _
              (or_invalid-rejects loads path literal only) (λ _ _. refl))

    read_boundary-rejects :
        (o : Option (String × String)) (line : String) (s : ParserState)
        → rejects escaping (read_boundary loads o line s) ≡ true
    unfolding read_boundary
    read_boundary-rejects none line s = read_scalar-rejects (scalar line) s.stack s.root
    read_boundary-rejects (some (kind, t)) line s = elim (Bool-cases (kind == "BEGIN")) [
      | inl begins ↦ rw begins (begin_block-rejects t s)
      | inr ends ↦ rw ends (end_block-rejects t s.stack s.root)
    ]

    read_line-rejects :
        (s : ParserState) (line : String) → rejects escaping (read_line loads s line) ≡ true
    unfolding read_line
    read_line-rejects s line =
        let permitted = not (is_empty line || is_comment line) in
        rejects-bind (require permitted "blank lines and comments are not permitted") _
          (rejects-require permitted "blank lines and comments are not permitted")
          (λ _ _. read_boundary-rejects (boundary line) line s)

    read_lines-rejects :
        (lines : List String) (s : ParserState) → rejects escaping (read_lines loads s lines) ≡ true
    unfolding read_lines
    read_lines-rejects [] s = refl
    read_lines-rejects (line ∷ rest) s =
        rejects-bind (read_line loads s line) _ (read_line-rejects s line)
          (λ t _. read_lines-rejects rest t)

  check_fields-rejects :
      (t : String) (c : Codec) (fs : Values) → rejects escaping (check_fields t c fs) ≡ true
  check_fields-rejects t c fs =
      rejects-bind (require (subset (names fs) c.fields) (t <> " contains undeclared fields")) _
        (rejects-require (subset (names fs) c.fields) (t <> " contains undeclared fields"))
        (λ _ _.
          rejects-require (not (any (is_repeated c.scalar_arrays) fs))
            (t <> " contains a repeated non-array field"))

  mutual
    unfolding validate_registered_fields known

    validate-rejects :
        (b : ParsedBlock)
        → known (type_of b) ≡ true
        → rejects escaping (validate_registered_fields b) ≡ true
    validate-rejects (block t fs cs) h = elim (Option-cases (codec_of t)) [
      | inl e ↦ absurd (ground (arith, h, e))
      | inr (c, e) ↦ rw e (
          rejects-bind (check_fields t c fs) _ (check_fields-rejects t c fs) (λ _ _.
            rejects-bind (check_children t c (blocks cs)) _ (rejects-require _ _) (λ _ admitted.
              validate_all-rejects cs (
                admitted-known known c.children (blocks cs) (codec_of-children t c e)
                  (check_children-ok t c (blocks cs) admitted)))))
    ]

    validate_all-rejects :
        (bs : Blocks)
        → all (λ b. known (type_of b)) (blocks bs) ≡ true
        → rejects escaping (validate_all bs) ≡ true
    validate_all-rejects no_blocks h = refl
    validate_all-rejects (more b bs) h =
        rejects-bind (validate_registered_fields b) _ (validate-rejects b (ground arith))
          (λ _ _. validate_all-rejects bs (ground arith))

  finish-rejects :
      (loads : String → Result Json) (stack : List ParsedBlock) (root : Option ParsedBlock)
      → rejects escaping (finish loads stack root) ≡ true
  unfolding finish known
  finish-rejects loads [] none = refl
  finish-rejects loads [] (some root) =
      let t = type_of root in
      rejects-bind (require (known t) ("unregistered block type " <> t)) _
        (rejects-require (known t) ("unregistered block type " <> t))
        (λ _ registered.
          rejects-bind (require (not (t == "STEP")) "STEP is only valid inside PLAN") _
            (rejects-require (not (t == "STEP")) "STEP is only valid inside PLAN")
            (λ _ _.
              rejects-bind (validate_registered_fields root) _
                (validate-rejects root (required (known t) _ registered)) (λ _ _. refl)))
  finish-rejects loads (b ∷ stack) root = refl

  -- Whatever text a model answers, and whatever the reader of literals returns or raises, the parser
  -- returns a block, raises LineProtocolError, or raises one of the errors other than ValueError that
  -- the reader raises: no lookup in the registry fails, and a ValueError of the reader does not
  -- escape.
  pub parse_line_protocol-rejects :
      (loads : String → Result Json) (document : String)
      → RaisesOnly escaping loads
      → rejects escaping (parse_line_protocol loads document) ≡ true
  unfolding parse_line_protocol
  parse_line_protocol-rejects loads document only =
      let lines = lines_of document in
      rejects-bind (require (not (is_nil lines)) "protocol response is empty") _
        (rejects-require (not (is_nil lines)) "protocol response is empty")
        (λ _ _.
          rejects-bind (read_lines loads initial lines) _
            (read_lines-rejects loads only lines initial)
            (λ s _. finish-rejects loads s.stack s.root))
