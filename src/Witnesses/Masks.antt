-- ===== src/Witnesses/Masks.antt =====
-- The theorems on masked values at concrete inputs.
use edg.Prelude.{List, [], ◌∷◌, replicate, refl}
use edg.Prelude.Int.{ℤ, pos}
use edg.Prelude.Text.{Bytes, codes}
use edg.Convert.{Value, text, int}
use edg.Gen.Mask.{Outside}

-- A constant hash.
abbrev outside : Outside ℤ Bytes Bytes
outside = record {
  hmac = λ key input. replicate 32 7;
  hmac_length = λ key input. refl;
  sprint = λ v. codes "value";
  to_int = λ f. f;
}

abbrev arguments : List (Value ℤ Bytes Bytes)
arguments = text (codes "base64") ∷ int (pos 8) ∷ []
