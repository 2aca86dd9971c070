-- ===== src/Base/Checksums.antt =====
-- The lines of a checksums.txt, as internal/server/release_cache.go and internal/agent/updater.go read
-- them.
use Prim.Native.Nat.{ℕ, ◌*◌}
use mathlib.Core.Bool.{Bool, true, false, ◌&&◌, ◌||◌}
use mathlib.Core.List.{List, [], ◌∷◌}
use server_status.Base.Tests.{leb, ◌==◌, if◌then◌else◌}
use server_status.Base.Text.{Text, is_space, byte_len}

-- One word more, before the words behind it; `open` says that the last letter met belongs to them.
push_letter : ℕ → Bool × List Text → Bool × List Text
push_letter c (true, word ∷ words) = (true, (c ∷ word) ∷ words)
push_letter c (true, []) = (true, (c ∷ []) ∷ [])
push_letter c (false, words) = (true, (c ∷ []) ∷ words)

fields_from : Text → Bool × List Text
unfolding push_letter
fields_from [] = (false, [])
fields_from (c ∷ s) =
    let rest = fields_from s in if is_space c then (false, rest.1) else push_letter c rest

-- `strings.Fields`
unfoldable pub fields : Text → List Text
unfolding fields_from
fields s = (fields_from s).1

abbrev is_hex_digit : ℕ → Bool
is_hex_digit c =
    (leb b'0' c && leb c b'9') || (leb b'a' c && leb c b'f') || (leb b'A' c && leb c b'F')

unfoldable pub all_hex : Text → Bool
all_hex [] = true
all_hex (c ∷ s) = is_hex_digit c && all_hex s

-- A digest of 64 hexadecimal digits: `len(s) == sha256.Size*2` and hex.DecodeString without an error.
unfoldable pub is_digest : Text → Bool
unfolding all_hex
is_digest s = byte_len s == 64 && all_hex s

-- The longest line that bufio.Scanner takes.
abbrev pub max_token_size : ℕ
max_token_size = 64 * 1024
