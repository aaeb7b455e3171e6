-- ===== src/Prelude/Characters.antt =====
-- The tests on the characters of a text that several packages make.
use Prim.Native.Char.{code}
use mini_dock.Prelude.{ℕ, String, Bool, true, ◌&&◌, ◌||◌, ◌==◌, leb}

abbrev pub is_hex : ℕ → Bool
is_hex c = leb 48 c && leb c 57 || (leb 97 c && leb c 102 || leb 65 c && leb c 70)

-- hex.DecodeString of an even number of characters
unfoldable pub all_hex : String → Bool
all_hex String.[] = true
all_hex (String.◌∷◌ c s) = let rest = all_hex s in is_hex (code c) && rest

-- unicode.IsSpace
abbrev pub is_space : ℕ → Bool
is_space c =
    leb 9 c && leb c 13
    || (c == 32
        || (c == 133
            || (c == 160
                || (c == 5760
                    || (leb 8192 c && leb c 8202
                        || (c == 8232
                            || (c == 8233 || (c == 8239 || (c == 8287 || c == 12288)))))))))

-- Nothing is left of the text when strings.TrimSpace has trimmed it.
unfoldable pub is_blank : String → Bool
is_blank String.[] = true
is_blank (String.◌∷◌ c s) = let rest = is_blank s in is_space (code c) && rest
