-- ===== src/LineProtocol.antt =====
-- llm/line_protocol.py: parsed blocks, and the values of their fields.
pub mod Lines
pub mod Parser
pub mod Codecs
pub mod Decode
pub mod Plans
pub mod Progress
pub mod Decoded
pub mod Verdicts
pub mod Rejects
pub mod Failures
pub mod NoTool
use codex_py.Base.{
  Bool, List, Option, Result, String, [], all, contains, err, guard, if◌then◌else◌,
  line_protocol_error, nat_eq, none, ok, some, string_eq, ◌&&◌, ◌++◌, ◌<>◌, ◌==◌, ◌∷◌,
}
use codex_py.Base.Json.{Json}

mutual
  pub data ParsedBlock : Type 0 where
    block : String → List (String × List Json) → Blocks → ParsedBlock

  pub data Blocks : Type 0 where
    no_blocks : Blocks
    more : ParsedBlock → Blocks → Blocks

abbrev pub Values : Type 0
Values = List (String × List Json)

abbrev pub type_of : ParsedBlock → String
type_of (block t fs cs) = t

abbrev pub fields_of : ParsedBlock → Values
fields_of (block t fs cs) = fs

abbrev pub blocks : Blocks → List ParsedBlock
blocks no_blocks = []
blocks (more b bs) = b ∷ blocks bs

abbrev pub of_list : List ParsedBlock → Blocks
of_list [] = no_blocks
of_list (b ∷ bs) = more b (of_list bs)

abbrev pub children_of : ParsedBlock → List ParsedBlock
children_of (block t fs cs) = blocks cs

abbrev pub names : Values → List String
names [] = []
names ((k, vs) ∷ fs) = k ∷ names fs

-- fields.get(name)
abbrev pub get_field : String → Values → Option (List Json)
get_field k [] = none
get_field k ((j, vs) ∷ fs) = let rest = get_field k fs in if j == k then some vs else rest

-- fields.setdefault(path, []).append(value)
unfoldable pub add_value : String → Json → Values → Values
add_value k v [] = (k, v ∷ []) ∷ []
add_value k v ((j, vs) ∷ fs) =
    let rest = add_value k v fs in if j == k then (j, vs ++ (v ∷ [])) ∷ fs else (j, vs) ∷ rest

-- set(xs) - set(ys) is empty
abbrev pub subset : List String → List String → Bool
subset xs ys = all (λ x. contains ys x) xs

-- set(xs) == set(ys)
abbrev pub same_set : List String → List String → Bool
same_set xs ys = subset xs ys && subset ys xs

abbrev pub reject {ℓ} : {A : Type ℓ} → String → Result A
reject message = err (line_protocol_error message)

-- if not test: raise LineProtocolError(message)
abbrev pub require : Bool → String → Result (Unit {0})
require test message = guard test (line_protocol_error message)

abbrev one_value : String → Option (List Json) → Result Json
one_value name none = reject ("missing declared field " <> name)
one_value name (some (v ∷ [])) = ok v
one_value name (some _) = reject ("repeated non-array field " <> name)

-- _single
unfoldable pub single : ParsedBlock → String → Result Json
single b name = one_value name (get_field name (fields_of b))
