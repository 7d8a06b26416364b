-- ===== src/Common/Text/Utf8.antt =====
-- `core::str::from_utf8` and `String::from_utf8_lossy`: a decoder of UTF-8 that stops at the first byte
-- that cannot continue a sequence, and goes on with that byte.
use Prim.Native.Nat.{ℕ, zero, suc, ◌+◌, ◌-◌, ◌*◌, ◌/◌, ◌%◌}
use mathlib.Core.Path.{◌≡◌, refl, ap, ◌∙◌}
use mathlib.Core.Bool.{true, false, ◌&&◌}
use mathlib.Core.List.{List, [], ◌∷◌, ◌++◌}
use mathlib.Core.Option.{Option, none, some}
use install_scope.Common.Tests.{ltb, leb, ◌==◌, if◌then◌else◌}
use install_scope.Common.Lists.{All}
use install_scope.Common.Text.Scan.{Text}

-- Between two characters, or in a sequence: the bits so far, how many bytes follow the next one, and
-- the bounds of the next one.
pub data Progress : Type 0 where
  between : Progress
  within : (bits left low high : ℕ) → Progress

-- What a first byte begins: a character of its own, a sequence, or nothing.
pub data Start : Type 0 where
  ascii : Start
  sequence : Progress → Start
  stray : Start

abbrev start_of : ℕ → Start
start_of b =
    if ltb b 0x80
    then ascii
    else if ltb b 0xc2
    then stray
    else if ltb b 0xe0
    then sequence (within (b - 0xc0) 0 0x80 0xbf)
    else if ltb b 0xf0
    then sequence
        (within (b - 0xe0) 1 (if b == 0xe0 then 0xa0 else 0x80) (if b == 0xed then 0x9f else 0xbf))
    else if ltb b 0xf5
    then sequence
        (within (b - 0xf0) 2 (if b == 0xf0 then 0x90 else 0x80) (if b == 0xf4 then 0x8f else 0xbf))
    else stray

-- Decoded characters; `none` stands for a maximal run of bytes that begins no character.
unfoldable decode : Progress → List ℕ → List (Option ℕ)
decode between [] = []
decode (within _ _ _ _) [] = none ∷ []
decode between (b ∷ bytes) = elim (start_of b) [
  | ascii ↦ some b ∷ decode between bytes
  | sequence p ↦ decode p bytes
  | stray ↦ none ∷ decode between bytes
]
decode (within bits zero low high) (b ∷ bytes) = elim (leb low b && leb b high) [
  | true ↦ some (bits * 64 + (b - 0x80)) ∷ decode between bytes
  | false ↦ none ∷ (elim (start_of b) [
    | ascii ↦ some b ∷ decode between bytes
    | sequence p ↦ decode p bytes
    | stray ↦ none ∷ decode between bytes
  ])
]
decode (within bits (suc left) low high) (b ∷ bytes) = elim (leb low b && leb b high) [
  | true ↦ decode (within (bits * 64 + (b - 0x80)) left 0x80 0xbf) bytes
  | false ↦ none ∷ (elim (start_of b) [
    | ascii ↦ some b ∷ decode between bytes
    | sequence p ↦ decode p bytes
    | stray ↦ none ∷ decode between bytes
  ])
]

abbrev replace_bad : List (Option ℕ) → Text
replace_bad [] = []
replace_bad (some c ∷ cs) = c ∷ replace_bad cs
replace_bad (none ∷ cs) = 0xfffd ∷ replace_bad cs

abbrev all_good : List (Option ℕ) → Option Text
all_good [] = some []
all_good (none ∷ _) = none
all_good (some c ∷ cs) = elim (all_good cs) [ none ↦ none | some s ↦ some (c ∷ s) ]

unfoldable pub from_utf8_lossy : List ℕ → Text
unfolding decode
from_utf8_lossy bytes = replace_bad (decode between bytes)

unfoldable pub from_utf8 : List ℕ → Option Text
unfolding decode
from_utf8 bytes = all_good (decode between bytes)

start_of_ascii : (b : ℕ) → ltb b 0x80 ≡ true → start_of b ≡ ascii
start_of_ascii b small = rw (small) refl

decode_ascii :
    (b : ℕ) (bytes : List ℕ)
    → ltb b 0x80 ≡ true
    → decode between (b ∷ bytes) ≡ some b ∷ decode between bytes
unfolding decode
decode_ascii b bytes small = rw (start_of_ascii b small, decode) refl

-- A text of ASCII characters is its bytes.
pub from_utf8_lossy_ascii : (s : List ℕ) → All (λ b. ltb b 0x80 ≡ true) s → from_utf8_lossy s ≡ s
unfolding from_utf8_lossy
from_utf8_lossy_ascii [] h = refl
from_utf8_lossy_ascii (b ∷ s) (small, h) =
    ap replace_bad (decode_ascii b s small) ∙ ap (λ t. b ∷ t) (from_utf8_lossy_ascii s h)

-- The bytes of a character, and `str::as_bytes`.
abbrev char_bytes : ℕ → List ℕ
char_bytes c =
    if ltb c 0x80
    then c ∷ []
    else if ltb c 0x800
    then (0xc0 + c / 64) ∷ (0x80 + c % 64) ∷ []
    else if ltb c 0x10000
    then (0xe0 + c / 4096) ∷ (0x80 + (c / 64) % 64) ∷ (0x80 + c % 64) ∷ []
    else (0xf0 + c / 262144)
      ∷ (0x80 + (c / 4096) % 64)
      ∷ (0x80 + (c / 64) % 64)
      ∷ (0x80 + c % 64)
      ∷ []

unfoldable pub as_bytes : Text → List ℕ
as_bytes [] = []
as_bytes (c ∷ s) = char_bytes c ++ as_bytes s

pub as_bytes_ascii : (s : Text) → All (λ c. ltb c 0x80 ≡ true) s → as_bytes s ≡ s
unfolding as_bytes
as_bytes_ascii [] h = refl
as_bytes_ascii (c ∷ s) (small, h) = rw (small, as_bytes) (ap (λ t. c ∷ t) (as_bytes_ascii s h))
