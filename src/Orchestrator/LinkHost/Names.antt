-- ===== src/Orchestrator/LinkHost/Names.antt =====
-- Which node ids have a host name, and that it names them (services/orchestrator/src/agentLink.ts).
use mathlib.Core.List.{map-append}
use nexus_infra.Prelude.{
  ℕ, zero, suc, ◌+◌, ◌-◌, ◌*◌, ◌/◌, ◌%◌, ◌≤◌, ◌<◌, ◌≡◌, refl, true, false, Option, none, some, List,
  [], ◌∷◌, ◌++◌, map, length, length-append, is_empty, All, if◌then◌else◌, leb, not, is_none, ◌&&◌,
  arith, Bool-cases, inl, inr,
}
use nexus_infra.Orchestrator.LinkHost.{
  link_host_suffix, label_chars, hex_digit, to_hex, dotted, link_host, lower, same_text,
  before_suffix, without_dots, hex_value, from_hex, node_id_of_hex, node_id_from_link_host,
}

abbrev pub IsByte : ℕ → Type 0
IsByte b = b < 256

-- A digit or a lower-case letter.
abbrev IsPlain : ℕ → Type 0
IsPlain c = (48 ≤ c) × (lower c ≡ c)

hex_digit-IsPlain : (n : ℕ) → n < 16 → IsPlain (hex_digit n)
unfolding hex_digit lower
hex_digit-IsPlain n h = ground arith

hex_value-hex_digit : (n : ℕ) → n < 16 → hex_value (hex_digit n) ≡ some n
unfolding hex_value hex_digit
hex_value-hex_digit n h = ground arith

to_hex-IsPlain : (bytes : List ℕ) → All IsByte bytes → All IsPlain (to_hex bytes)
unfolding to_hex
to_hex-IsPlain [] h = tt
to_hex-IsPlain (b ∷ bytes) (small, h) = (
  hex_digit-IsPlain (b / 16) (omega arith),
  (hex_digit-IsPlain (b % 16) (omega arith), to_hex-IsPlain bytes h),
)

from_hex-to_hex : (bytes : List ℕ) → All IsByte bytes → from_hex (to_hex bytes) ≡ some bytes
unfolding from_hex to_hex
from_hex-to_hex [] h = refl
from_hex-to_hex (b ∷ bytes) (small, h) =
    rw
      (
        hex_value-hex_digit (b / 16) (omega arith),
        hex_value-hex_digit (b % 16) (omega arith),
        from_hex-to_hex bytes h,
        from_hex,
      )
      (ground arith)

length-to_hex : (bytes : List ℕ) → length (to_hex bytes) ≡ 2 * length bytes
unfolding to_hex
length-to_hex [] = omega arith
length-to_hex (b ∷ bytes) = omega (arith, length-to_hex bytes)

without_dots-dotted : (room : ℕ) (cs : List ℕ) → All IsPlain cs → without_dots (dotted room cs) ≡ cs
unfolding without_dots dotted
without_dots-dotted zero [] h = refl
without_dots-dotted (suc room) [] h = refl
without_dots-dotted zero (c ∷ cs) ((low, same), h) =
    ground (arith, without_dots-dotted (label_chars - 1) cs h)
without_dots-dotted (suc room) (c ∷ cs) ((low, same), h) =
    ground (arith, without_dots-dotted room cs h)

lower-dot : lower 46 ≡ 46
unfolding lower
lower-dot = refl

lower-dotted :
    (room : ℕ) (cs : List ℕ) → All IsPlain cs → map lower (dotted room cs) ≡ dotted room cs
unfolding dotted
lower-dotted zero [] h = refl
lower-dotted (suc room) [] h = refl
lower-dotted zero (c ∷ cs) ((low, same), h) =
    ground (arith, same, lower-dot, lower-dotted (label_chars - 1) cs h)
lower-dotted (suc room) (c ∷ cs) ((low, same), h) = ground (arith, same, lower-dotted room cs h)

lower-suffix : map lower link_host_suffix ≡ link_host_suffix
unfolding lower
lower-suffix = refl

same_text-length : (xs ys : List ℕ) → same_text xs ys ≡ true → length xs ≡ length ys
unfolding same_text
same_text-length [] [] h = refl
same_text-length [] (y ∷ ys) h = cc
same_text-length (x ∷ xs) [] h = cc
same_text-length (x ∷ xs) (y ∷ ys) h = ground (arith, same_text-length xs ys)

same_text_refl : (xs : List ℕ) → same_text xs xs ≡ true
unfolding same_text
same_text_refl [] = refl
same_text_refl (x ∷ xs) = ground (arith, same_text_refl xs)

before_suffix-append :
    (c : ℕ) (suffix xs : List ℕ) → before_suffix (c ∷ suffix) (xs ++ c ∷ suffix) ≡ some xs
unfolding before_suffix
before_suffix-append c suffix [] = ground (arith, same_text_refl (c ∷ suffix))
before_suffix-append c suffix (x ∷ xs) =
    elim (Bool-cases (same_text (x ∷ xs ++ c ∷ suffix) (c ∷ suffix))) [
      | inl same ↦ absurd (
          omega (
            arith,
            same_text-length (x ∷ xs ++ c ∷ suffix) (c ∷ suffix) same,
            length-append xs (c ∷ suffix),
          ))
      | inr longer ↦ ground (arith, longer, before_suffix-append c suffix xs)
    ]

-- One dot for every 62 characters after the first 62.
length-dotted :
    (room : ℕ) (cs : List ℕ)
    → room ≤ 62
    → length (dotted room cs) ≡ length cs + (length cs + 61 - room) / 62
unfolding dotted
length-dotted zero [] h = omega arith
length-dotted (suc room) [] h = omega arith
length-dotted zero (c ∷ cs) h = omega (arith, length-dotted (label_chars - 1) cs)
length-dotted (suc room) (c ∷ cs) h = omega (arith, length-dotted room cs)

length-host :
    (bytes : List ℕ)
    → length (dotted label_chars (to_hex bytes) ++ link_host_suffix)
      ≡ 2 * length bytes + (2 * length bytes - 1) / 62 + 19
length-host bytes = omega (
  arith,
  length-append (dotted label_chars (to_hex bytes)) link_host_suffix,
  length-dotted label_chars (to_hex bytes) (omega arith),
  length-to_hex bytes,
)

to_hex-full : (bytes : List ℕ) → 1 ≤ length bytes → is_empty (to_hex bytes) ≡ false
unfolding to_hex
to_hex-full [] h = absurd (omega arith)
to_hex-full (b ∷ bytes) h = refl

node_id_from_dotted :
    (bytes : List ℕ)
    → All IsByte bytes
    → 1 ≤ length bytes
    → node_id_from_link_host (dotted label_chars (to_hex bytes) ++ link_host_suffix) ≡ some bytes
unfolding node_id_from_link_host node_id_of_hex
node_id_from_dotted bytes b full =
    let plain = to_hex-IsPlain bytes b in
    let labels = dotted label_chars (to_hex bytes) in
    let found : before_suffix link_host_suffix (map lower (labels ++ link_host_suffix))
        ≡ some labels =
      rw
        (
          map-append lower labels link_host_suffix,
          lower-dotted label_chars (to_hex bytes) plain,
          lower-suffix,
        )
        (before_suffix-append 46 _ labels) in
    ground (
      arith,
      found,
      without_dots-dotted label_chars (to_hex bytes) plain,
      to_hex-full bytes full,
      from_hex-to_hex bytes b,
    )

-- From a node id to the host name of its agent link and back.
abbrev pub there_and_back : List ℕ → Option (List ℕ)
there_and_back node_id = elim (link_host node_id) [
  | none ↦ none
  | some host ↦ node_id_from_link_host host
]

-- A node id has a host name for its agent link exactly when it is of 1 to 115 bytes, and that host
-- name leads back to exactly that id.
pub link_host-node_id :
    (bytes : List ℕ)
    → All IsByte bytes
    → (is_none (link_host bytes) ≡ not (leb 1 (length bytes) && leb (length bytes) 115))
      × (there_and_back bytes
          ≡ (if leb 1 (length bytes) && leb (length bytes) 115 then some bytes else none))
unfolding link_host
link_host-node_id [] b = unfold to_hex in (refl, refl)
link_host-node_id (x ∷ bytes) b =
    let full = to_hex-full (x ∷ bytes) (omega arith) in
    let back = node_id_from_dotted (x ∷ bytes) b (omega arith) in
    (
      ground (arith, length-host (x ∷ bytes), full),
      ground (arith, length-host (x ∷ bytes), full, back),
    )
