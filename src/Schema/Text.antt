-- ===== src/Schema/Text.antt =====
-- Texts that callers and creators type: `String.prototype.trim` and `.length` on UTF-16 code units.
use bling.Prelude.{ℕ, Bool, ◌||◌, ◌&&◌, [], ◌∷◌, reverse, ◌==◌, leb, if◌then◌else◌, length}
use bling.Schema.Docs.{Text}

-- The white space and line terminators of ECMAScript.
unfoldable pub is_space : ℕ → Bool
is_space u =
    (leb 9 u && leb u 13)
    || u == 32
    || u == 160
    || u == 5760
    || (leb 8192 u && leb u 8202)
    || u == 8232
    || u == 8233
    || u == 8239
    || u == 8287
    || u == 12288
    || u == 65279

unfoldable pub trim_start : Text → Text
unfolding is_space
trim_start [] = []
trim_start (u ∷ us) = let rest = trim_start us in if is_space u then rest else u ∷ us

unfoldable pub trim : Text → Text
unfolding trim_start
trim t = reverse (trim_start (reverse (trim_start t)))

-- Between `low` and `high` code units.
abbrev pub has_length : (low high : ℕ) → Text → Bool
has_length low high t = leb low (length t) && leb (length t) high
