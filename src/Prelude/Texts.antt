-- ===== src/Prelude/Texts.antt =====
-- What the source asks of a text besides equality: `trim() === ''` and `length`.
use Prim.Native.Char.{code}
use recat_qbo.Prelude.Shared.{
  ℕ, ◌+◌, ◌-◌, ◌/◌, ltb, Bool, true, false, ◌&&◌, ◌||◌, String, leb, ◌==◌, if◌then◌else◌,
}

-- The white space of `trim`, line terminators included.
abbrev pub is_space : ℕ → Bool
is_space c =
    (leb 9 c && leb c 13)
    || (c == 32
        || (c == 160
            || (c == 5760
                || ((leb 8192 c && leb c 8202)
                    || (c == 8232
                        || (c == 8233
                            || (c == 8239 || (c == 8287 || (c == 12288 || c == 65279)))))))))

unfoldable pub is_blank : String → Bool
is_blank String.[] = true
is_blank (String.◌∷◌ c s) = is_space (code c) && is_blank s

-- A code point outside the basic plane is two units of a JavaScript text.
unfoldable pub utf16_length : String → ℕ
utf16_length String.[] = 0
utf16_length (String.◌∷◌ c s) = (if leb (code c) 65535 then 1 else 2) + utf16_length s

-- The first unit of a code point.
abbrev pub lead_unit : ℕ → ℕ
lead_unit c = if leb c 65535 then c else 55296 + (c - 65536) / 1024

-- `<` on texts, unit by unit.
unfoldable pub text_lt : String → String → Bool
text_lt _ String.[] = false
text_lt String.[] (String.◌∷◌ d t) = true
text_lt (String.◌∷◌ c s) (String.◌∷◌ d t) =
    let rest = text_lt s t in
    if code c == code d
    then rest
    else (if lead_unit (code c) == lead_unit (code d)
        then ltb (code c) (code d)
        else ltb (lead_unit (code c)) (lead_unit (code d)))
