-- ===== src/Orchestrator/LinkHost.antt =====
-- The host names that stand for nodes behind an agent link (services/orchestrator/src/agentLink.ts).
-- A host is the list of its characters' codes, which are ASCII, and a node id that of its UTF-8
-- bytes.
pub mod Names
use nexus_infra.Prelude.{
  ℕ, zero, suc, ◌+◌, ◌-◌, ◌*◌, ◌/◌, ◌%◌, Bool, true, false, not, ◌&&◌, ◌||◌, Option, none, some,
  List, [], ◌∷◌, ◌++◌, map, if◌then◌else◌, ltb, leb, ◌==◌, length, is_empty,
}

-- `.agent-link.invalid`
abbrev pub link_host_suffix : List ℕ
link_host_suffix =
    46 ∷ 97 ∷ 103 ∷ 101 ∷ 110 ∷ 116 ∷ 45 ∷ 108 ∷ 105 ∷ 110 ∷ 107 ∷ 46 ∷ 105 ∷ 110 ∷ 118 ∷ 97 ∷ 108
    ∷ 105 ∷ 100 ∷ []

abbrev pub label_chars : ℕ
label_chars = 62

abbrev pub max_host_chars : ℕ
max_host_chars = 253

unfoldable pub hex_digit : ℕ → ℕ
hex_digit n = if ltb n 10 then 48 + n else 87 + n

-- `buffer.toString('hex')`
unfoldable pub to_hex : List ℕ → List ℕ
to_hex [] = []
to_hex (b ∷ bytes) = hex_digit (b / 16) ∷ hex_digit (b % 16) ∷ to_hex bytes

-- The labels of 62 characters, joined by dots; `room` is what the first label may still hold.
unfoldable pub dotted : ℕ → List ℕ → List ℕ
dotted room [] = []
dotted zero (c ∷ cs) = 46 ∷ c ∷ dotted (label_chars - 1) cs
dotted (suc room) (c ∷ cs) = c ∷ dotted room cs

-- The host of `linkBaseUrl`; `none` is the exception that it throws.
unfoldable pub link_host : List ℕ → Option (List ℕ)
link_host node_id =
    let hex = to_hex node_id in
    let host = dotted label_chars hex ++ link_host_suffix in
    if is_empty hex || ltb max_host_chars (length host) then none else some host

unfoldable pub lower : ℕ → ℕ
lower c = if leb 65 c && leb c 90 then c + 32 else c

unfoldable pub same_text : List ℕ → List ℕ → Bool
same_text [] [] = true
same_text [] (y ∷ ys) = false
same_text (x ∷ xs) [] = false
same_text (x ∷ xs) (y ∷ ys) = x == y && same_text xs ys

-- What stands before the suffix, if the text ends with it.
unfoldable pub before_suffix : List ℕ → List ℕ → Option (List ℕ)
before_suffix suffix [] = if same_text [] suffix then some [] else none
before_suffix suffix (x ∷ xs) =
    let rest = before_suffix suffix xs in
    if same_text (x ∷ xs) suffix
    then some []
    else elim rest [ none ↦ none | some ys ↦ some (x ∷ ys) ]

-- `text.replace(/\./g, '')`
unfoldable pub without_dots : List ℕ → List ℕ
without_dots [] = []
without_dots (x ∷ xs) = let rest = without_dots xs in if x == 46 then rest else x ∷ rest

unfoldable pub hex_value : ℕ → Option ℕ
hex_value c =
    if leb 48 c && leb c 57
    then some (c - 48)
    else if leb 97 c && leb c 102
    then some (c - 87)
    else none

-- `Buffer.from(hex, 'hex')`, where the length is even and every character is a digit.
unfoldable pub from_hex : List ℕ → Option (List ℕ)
from_hex [] = some []
from_hex (a ∷ []) = none
from_hex (a ∷ b ∷ hex) = elim (hex_value a) [
  | none ↦ none
  | some high ↦ elim (hex_value b) [
    | none ↦ none
    | some low ↦ elim (from_hex hex) [ none ↦ none | some bytes ↦ some ((16 * high + low) ∷ bytes) ]
  ]
]

unfoldable pub node_id_of_hex : List ℕ → Option (List ℕ)
node_id_of_hex hex = if is_empty hex then none else from_hex hex

unfoldable pub node_id_from_link_host : List ℕ → Option (List ℕ)
node_id_from_link_host hostname = elim (before_suffix link_host_suffix (map lower hostname)) [
  | none ↦ none
  | some labels ↦ node_id_of_hex (without_dots labels)
]
