-- ===== src/Validation/Texts.antt =====
-- The tests on texts and numbers of scripts/durable_recovery.py, `validate_request`.
use Prim.Native.String.{◌++◌ as ◌<>◌}
use moon_mqtt_client.Base.{
  ℕ, ◌-◌, ◌^◌, String, Bool, false, not, ◌&&◌, ◌||◌, List, [], ◌∷◌, leb, ◌==◌, length, exists,
  every, if◌then◌else◌, str_eq,
}
use moon_mqtt_client.Base.Int.{ℤ, pos, negsuc, Float, finite, int_eq, ratio_eq, ratio_le}
use moon_mqtt_client.Base.Text.{codes, encode}
use moon_mqtt_client.Json.{Json, bool, int, float}
use moon_mqtt_client.Paths.{FilePath}

abbrev pub between : ℕ → ℕ → ℕ → Bool
between low high c = leb low c && leb c high

-- `[A-Za-z0-9]` and `[A-Za-z0-9._-]`
abbrev pub is_alphanumeric : ℕ → Bool
is_alphanumeric c = between 65 90 c || (between 97 122 c || between 48 57 c)

abbrev pub is_identifier_char : ℕ → Bool
is_identifier_char c = is_alphanumeric c || (c == 46 || (c == 95 || c == 45))

abbrev identifier_codes : List ℕ → Bool
identifier_codes [] = false
identifier_codes (c ∷ cs) =
    is_alphanumeric c && (every is_identifier_char cs && leb (length cs) 127)

-- `IDENTIFIER.fullmatch(s)`
unfoldable pub is_identifier : String → Bool
is_identifier s = identifier_codes (codes s)

-- `"\x00" in s`
abbrev pub has_nul : String → Bool
has_nul s = exists (λ c. c == 0) (codes s)

-- No NUL and at most 65,535 bytes.
unfoldable pub is_wire_text : String → Bool
is_wire_text s = not (has_nul s) && leb (length (encode s)) 65535

-- The white space of `str.strip`.
abbrev is_space : ℕ → Bool
is_space c =
    between 9 13 c
    || (between 28 32 c
        || (c == 0x85
            || (c == 0xA0
                || (c == 0x1680
                    || (between 0x2000 0x200A c
                        || (c == 0x2028
                            || (c == 0x2029 || (c == 0x202F || (c == 0x205F || c == 0x3000)))))))))

-- `s.strip()` is not empty.
unfoldable pub is_filled : String → Bool
is_filled s = exists (λ c. not (is_space c)) (codes s)

-- `v == 1`
abbrev pub is_one : Json → Bool
is_one (bool b) = b
is_one (int n) = int_eq n (pos 1)
is_one (float (finite m e)) = ratio_eq m e (pos 1) 0
is_one _ = false

-- An integer that is too large for a float; `math.isfinite` raises for it.
abbrev pub overflows : ℤ → Bool
overflows (pos n) = leb (2 ^ 1024 - 2 ^ 970) n
overflows (negsuc n) = leb (2 ^ 1024 - 2 ^ 970) (ℕ.suc n)

-- `0 < x <= 60`, finite.
abbrev pub is_timeout : Float → Bool
is_timeout (finite m e) = not (ratio_le m e (pos 0) 0) && ratio_le m e (pos 60) 0
is_timeout _ = false

-- `str(path)`
abbrev pub path_text : FilePath → String
path_text p = if str_eq p.dir "/" then "/" <> p.name else p.dir <> ("/" <> p.name)
