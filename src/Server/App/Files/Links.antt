-- ===== src/Server/App/Files/Links.antt =====
-- Where the links of a listing lead.
use kubernetes_up_running.Base.{ℕ, ◌≡◌, Bool, true, List, [], ◌∷◌, ◌++◌, All, ◌==◌, ◌&&◌, ◌||◌, leb}
use kubernetes_up_running.Js.Text.{Text}
use kubernetes_up_running.Server.App.Files.{Entry, slashed, slash_if}

-- What follows the prefix of the browser in the address of a link.
abbrev pub after_fs : List Text → Entry → Text
after_fs segs e = slashed (segs ++ e.name ∷ []) ++ slash_if e.is_dir

-- The unreserved characters of RFC 3986, and the slash: no character of an address that means anything
-- else to HTML or to a URL.
abbrev pub is_plain : ℕ → Bool
is_plain c =
    leb b'a' c && leb c b'z'
    || leb b'A' c && leb c b'Z'
    || leb b'0' c && leb c b'9'
    || c == b'-'
    || c == b'.'
    || c == b'_'
    || c == b'~'
    || c == b'/'

abbrev pub IsPlain : Text → Type 0
IsPlain s = All (λ c. is_plain c ≡ true) s
