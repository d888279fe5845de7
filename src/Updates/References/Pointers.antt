-- ===== src/Updates/References/Pointers.antt =====
-- Local references are decoded as JSON pointers.
use api_truth.Prelude.{[], ◌∷◌, ◌==◌, if◌then◌else◌}
use api_truth.Prelude.Text.{Str}

-- The encoding of RFC 6901: "~" is written "~0" and "/" is written "~1".
unfoldable pub encode : Str → Str
encode [] = []
encode (a ∷ s) =
    let rest = encode s in
    if a == b'~' then b'~' ∷ b'0' ∷ rest else if a == b'/' then b'~' ∷ b'1' ∷ rest else a ∷ rest

-- With "~1" replaced and "~0" not yet.
half : Str → Str
half [] = []
half (a ∷ s) = let rest = half s in if a == b'~' then b'~' ∷ b'0' ∷ rest else a ∷ rest
