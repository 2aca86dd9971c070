-- ===== src/Server/Bearer.antt =====
-- bearerToken of internal/server/http.go: the token of the Authorization header.
use server_status.Base.{Option, none, some, not, ◌||◌, if◌then◌else◌, ◌≡◌, refl}
use server_status.Base.Text.{
  Text, codes, text_eq, is_empty, is_space, trim_left, trim_right, trim_space, equal_fold, cut,
}

-- `none` where there is no bearer token.
unfoldable pub bearer_token : Text → Option Text
bearer_token header = elim (cut b' ' (trim_space header)) [
  | none ↦ none
  | some (prefix, token) ↦
      if not (equal_fold prefix (codes "Bearer")) || is_empty (trim_space token)
      then none
      else some (trim_space token)
]

takes_token : bearer_token (codes " bearer  abc ") ≡ some (codes "abc")
unfolding bearer_token text_eq is_space trim_left trim_right trim_space equal_fold cut
takes_token = refl
