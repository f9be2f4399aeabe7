-- ===== src/ConnectionString/Decode.antt =====
-- `UrlDecode`: which characters it leaves.
use Prim.Native.Char.{Char}
use Prim.Native.String.{count}
use Prim.Native.String.count.{cons}
use distributed_math_arh.Prelude.{
  suc, String, Bool, true, false, ◌||◌, ◌≡◌, refl, ap, if◌then◌else◌, arith,
}
use distributed_math_arh.ConnectionString.{delimiters, is_delimiter, url_decode}

-- Does a text have one of the delimiters?
abbrev pub has_delimiter : String → Bool
has_delimiter String.[] = false
has_delimiter (String.◌∷◌ c s) = is_delimiter delimiters c || has_delimiter s

decoded_char :
    (c : Char) (b : Bool)
    → is_delimiter delimiters c ≡ b
    → is_delimiter delimiters (if b then " " else c) ≡ false
unfolding is_delimiter
decoded_char c true h = refl
decoded_char c false h = h

count-url_decode : (s : String) → count (url_decode s) ≡ count s
unfolding url_decode
count-url_decode String.[] = refl
count-url_decode (String.◌∷◌ c s) =
    rw (cons (if is_delimiter delimiters c then " " else c) (url_decode s), cons c s)
      (ap suc (count-url_decode s))

-- A decoded text has no delimiter.
pub has_delimiter-url_decode : (s : String) → has_delimiter (url_decode s) ≡ false
unfolding url_decode
has_delimiter-url_decode String.[] = refl
has_delimiter-url_decode (String.◌∷◌ c s) =
    rw (decoded_char c (is_delimiter delimiters c) refl) (has_delimiter-url_decode s)

-- A text without delimiters is decoded to itself.
pub url_decode_plain : (s : String) → has_delimiter s ≡ false → url_decode s ≡ s
unfolding url_decode
url_decode_plain String.[] h = refl
url_decode_plain (String.◌∷◌ c s) h = ground (arith, url_decode_plain s)

-- A decoded text has as many characters as the text, has no delimiter left, and is decoded to itself.
pub url_decode_idem :
    (s : String)
    → (count (url_decode s) ≡ count s)
      × (has_delimiter (url_decode s) ≡ false)
      × (url_decode (url_decode s) ≡ url_decode s)
url_decode_idem s = (
  count-url_decode s,
  has_delimiter-url_decode s,
  url_decode_plain (url_decode s) (has_delimiter-url_decode s),
)
