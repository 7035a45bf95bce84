-- ===== src/Identity/Tests.antt =====
-- The theorems on the fingerprint at concrete parts.
use mesui.Prelude.{take, length, ◌≡◌, refl, List, [], ◌∷◌, Bytes, arith}
use mesui.Identity.{safety_groups, join, chunks8, hex, hex_digit, format_fingerprint, split_from}
use mesui.Identity.Fingerprint.{fingerprint_input-injective, safety_groups_lem}

abbrev parts : List Bytes
parts = (1 ∷ 2 ∷ []) ∷ [] ∷ (3 ∷ []) ∷ []

fingerprint_input-injective_example : parts ≡ parts
fingerprint_input-injective_example =
    fingerprint_input-injective parts parts (omega arith, (omega arith, (omega arith, tt)))
      (omega arith, (omega arith, (omega arith, tt))) (omega arith) (omega arith) refl

abbrev print : Bytes
print = 18 ∷ 52 ∷ 86 ∷ 120 ∷ 154 ∷ []

-- 12345678
groups_run : safety_groups print 1 ≡ 49 ∷ 50 ∷ 51 ∷ 52 ∷ 53 ∷ 54 ∷ 55 ∷ 56 ∷ []
unfolding safety_groups join chunks8 hex hex_digit format_fingerprint split_from
groups_run = refl

safety_groups_lem_example :
    safety_groups print 1 ≡ join (take 1 (chunks8 (length (hex print)) (hex print)))
safety_groups_lem_example = safety_groups_lem print 1
