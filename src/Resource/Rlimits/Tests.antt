-- ===== src/Resource/Rlimits/Tests.antt =====
-- Limits that are compared and printed.
use extunix.Base.{◌≡◌, refl, true, ◌+◌, arith, [], ◌∷◌, ◌^◌, ◌-◌}
use extunix.Base.Int.{pos, negsuc, signed}
use extunix.Resource.{encode_limit}
use extunix.Resource.Rlimits.{lt, b, kb, gb, string_of_bytes}
use extunix.Resource.Rlimits.Order.{Compares, compare_limits-Compares}

text_run : string_of_bytes (pos 1073743873) ≡ (pos 1, gb) ∷ (pos 2, kb) ∷ (pos 1, b) ∷ []
unfolding string_of_bytes
text_run = refl

negative_run : string_of_bytes (negsuc 1024) ≡ (negsuc 0, kb) ∷ (negsuc 0, b) ∷ []
unfolding string_of_bytes
negative_run = refl

-- A limit from 2 ^ 63 on is below 4096.
huge_run : lt (encode_limit (2 ^ 64 - 1) (2 ^ 63)) (encode_limit (2 ^ 64 - 1) 4096) ≡ true
unfolding lt encode_limit signed
huge_run = refl

compare_limits-Compares_example :
    Compares (encode_limit (2 ^ 64 - 1) (2 ^ 63)) (encode_limit (2 ^ 64 - 1) 4096) 0 (4096 + 2 ^ 63)
compare_limits-Compares_example =
    compare_limits-Compares (2 ^ 64 - 1) (2 ^ 63) 4096 (omega arith) (omega arith)
