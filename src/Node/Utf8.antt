-- ===== src/Node/Utf8.antt =====
-- node.rs: which bytes `String::from_utf8` takes.
use mesui.Prelude.{
  ℕ, Bool, true, false, ◌&&◌, Option, none, some, [], ◌∷◌, Bytes, leb, ltb, if◌then◌else◌,
}

abbrev between : ℕ → ℕ → ℕ → Bool
between lo hi b = leb lo b && leb b hi

-- The range of the first continuation byte after a lead byte, and how many more follow it; `none` is no
-- lead byte.
lead : ℕ → Option (ℕ × ℕ × ℕ)
lead b =
    if between 0xC2 0xDF b
    then some (0x80, 0xBF, 0)
    else if between 0xE0 0xE0 b
    then some (0xA0, 0xBF, 1)
    else if between 0xED 0xED b
    then some (0x80, 0x9F, 1)
    else if between 0xE1 0xEF b
    then some (0x80, 0xBF, 1)
    else if between 0xF0 0xF0 b
    then some (0x90, 0xBF, 2)
    else if between 0xF1 0xF3 b
    then some (0x80, 0xBF, 2)
    else if between 0xF4 0xF4 b
    then some (0x80, 0x8F, 2)
    else none

-- The bytes that still belong to a character: the range of the next one, and how many follow it.
unfoldable pub utf8_from : Option (ℕ × ℕ × ℕ) → Bytes → Bool
unfolding lead
utf8_from none [] = true
utf8_from none (b ∷ bs) =
    if ltb b 0x80
    then utf8_from none bs
    else elim (lead b) [ none ↦ false | some w ↦ utf8_from (some w) bs ]
utf8_from (some (lo, hi, more)) [] = false
utf8_from (some (lo, hi, more)) (b ∷ bs) =
    let last = utf8_from none bs in
    let next = utf8_from (some (0x80, 0xBF, 0)) bs in
    let twice = utf8_from (some (0x80, 0xBF, 1)) bs in
    between lo hi b && (if leb more 0 then last else if leb more 1 then next else twice)

unfoldable pub from_utf8 : Bytes → Option Bytes
unfolding utf8_from
from_utf8 bytes = if utf8_from none bytes then some bytes else none
