-- ===== src/Dcs/Values.antt =====
-- Go's `any` as JSON decoding fills it, and the readings of control/read.go.
use go_patroni.Base.{
  ℕ, ◌+◌, Bool, true, false, ◌&&◌, ◌||◌, [], ◌∷◌, map, leb, ◌==◌, if◌then◌else◌, any,
}
use go_patroni.Texts.{Text, text, text_eq}
use go_patroni.Texts.Space.{trim_space}

-- `number` is a `json.Number`, its text; `float` is a `float64`, its 64-bit pattern.
mutual
  pub data Value : Type 0 where
    null : Value
    boolean : Bool → Value
    number : Text → Value
    float : ℕ → Value
    string : Text → Value
    array : Items → Value
    object : Fields → Value

  pub data Items : Type 0 where
    nil : Items
    cons : Value → Items → Items

  -- A map; keys are distinct.
  pub data Fields : Type 0 where
    end : Fields
    field : Text → Value → Fields → Fields

-- `m[key]`: a missing key gives a nil `any`.
unfoldable pub value_at : Text → Fields → Value
value_at key end = null
value_at key (field k v fs) = elim (text_eq k key) [ true ↦ v | false ↦ value_at key fs ]

-- `strings.ToLower` on ASCII letters. No other rune lowers to a letter of the words that the result
-- is compared with.
lower : ℕ → ℕ
lower c = if leb b'A' c && leb c b'Z' then c + 32 else c

is_true_word : Text → Bool
unfolding text text_eq any
is_true_word s = any (text_eq s) (text "1" ∷ text "true" ∷ text "yes" ∷ text "on" ∷ [])

-- The bit pattern of 1.0; no other pattern equals 1.
abbrev one_bits : ℕ
one_bits = 0x3ff0000000000000

unfoldable pub bool_config : Value → Bool
unfolding is_true_word lower trim_space text
bool_config (boolean b) = b
bool_config (string s) = is_true_word (map lower (trim_space s))
bool_config (number n) = text_eq n (text "1")
bool_config (float bits) = bits == one_bits
bool_config _ = false

-- `strings.EqualFold(fmt.Sprint(value), "quorum")`. No letter of the word has a case folding outside
-- ASCII, and only a string or a number's text can print as the word.
is_quorum : Value → Bool
unfolding lower text_eq text
is_quorum (string s) = text_eq (map lower s) (text "quorum")
is_quorum (number n) = text_eq (map lower n) (text "quorum")
is_quorum _ = false

unfoldable pub synchronous_mode : Fields → Bool
unfolding is_quorum bool_config value_at text
synchronous_mode configuration =
    bool_config (value_at (text "synchronous_mode") configuration)
    || is_quorum (value_at (text "synchronous_mode") configuration)
