-- ===== src/Kube/Text.antt =====
-- Texts as the code builds them with fmt.Sprintf: `concat` for the plain verbs, `quote` for %q.
-- `quote` is strconv.Quote on texts whose characters from U+0080 up are printable.
use Prim.Native.Char.{Char, code}
use Prim.Native.String.{◌++◌ as str_append, slice}
use c5c3_forge.Prelude.{ℕ, ◌+◌, ◌≡◌, refl, List, [], ◌∷◌, String, ltb, ◌==◌, if◌then◌else◌, ◌||◌}
use Prim.Native.Nat.{◌/◌, ◌%◌}

-- The pieces of a format, one after the other.
unfoldable pub concat : List String → String
concat [] = ""
concat (s ∷ ss) = str_append s (concat ss)

-- One hexadecimal digit.
hex_digit : ℕ → String
hex_digit n = slice "0123456789abcdef" n (n + 1)

-- A character inside quotes.
escaped : Char → String
unfolding hex_digit
escaped c =
    let n = code c in
    if n == b'"'
    then "\\\""
    else if n == b'\\'
    then "\\\\"
    else if n == 7
    then "\\a"
    else if n == 8
    then "\\b"
    else if n == 9
    then "\\t"
    else if n == 10
    then "\\n"
    else if n == 11
    then "\\v"
    else if n == 12
    then "\\f"
    else if n == 13
    then "\\r"
    else if ltb n 32 || n == 127
    then str_append "\\x" (str_append (hex_digit (n / 16)) (hex_digit (n % 16)))
    else String.◌∷◌ c String.[]

inner : String → String
unfolding escaped
inner String.[] = ""
inner (String.◌∷◌ c s) = str_append (escaped c) (inner s)

unfoldable pub quote : String → String
unfolding inner
quote s = str_append "\"" (str_append (inner s) "\"")

spaced : List String → String
spaced [] = ""
spaced (s ∷ ss) = str_append " " (str_append s (spaced ss))

joined : List String → String
unfolding spaced
joined [] = ""
joined (s ∷ ss) = str_append s (spaced ss)

-- fmt's %v of a slice of texts.
unfoldable pub list_text : List String → String
unfolding joined
list_text ss = concat ("[" ∷ joined ss ∷ "]" ∷ [])

quote_tab : quote "a\tb\"c\\" ≡ "\"a\\tb\\\"c\\\\\""
unfolding quote
quote_tab = refl
