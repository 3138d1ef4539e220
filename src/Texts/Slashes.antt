-- ===== src/Texts/Slashes.antt =====
-- `strings.TrimLeft`, `TrimRight` and `Trim` with the cut set "/".
use go_patroni.Base.{true, false, ◌&&◌, [], ◌∷◌, ◌==◌, if◌then◌else◌, is_empty}
use go_patroni.Texts.{Text}

unfoldable pub trim_right_slash : Text → Text
trim_right_slash [] = []
trim_right_slash (c ∷ s) =
    let rest = trim_right_slash s in if is_empty rest && c == b'/' then [] else c ∷ rest

unfoldable pub trim_left_slash : Text → Text
trim_left_slash [] = []
trim_left_slash (c ∷ s) = elim (c == b'/') [ true ↦ trim_left_slash s | false ↦ c ∷ s ]

unfoldable pub trim_slashes : Text → Text
unfolding trim_right_slash trim_left_slash
trim_slashes s = trim_right_slash (trim_left_slash s)
