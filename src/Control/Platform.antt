-- ===== src/Control/Platform.antt =====
-- What the standard library gives the operations, as parameters, and the few functions of
-- control/service.go and control/read.go that only apply it.
use go_patroni.Base.{
  ℕ, ℤ, Bool, ◌||◌, Option, none, some, List, [], ◌∷◌, if◌then◌else◌, is_empty, not,
}
use go_patroni.Base.Result.{Result}
use go_patroni.Texts.{Text, text, text_eq}
use go_patroni.Texts.Slashes.{trim_right_slash}
use go_patroni.Texts.Space.{trim_space}
use go_patroni.Control.Types.{Time, Cause}

-- The parts of `url.URL` that the program reads; `with_user` is `User != nil`. Setting `RawPath` to
-- the empty string has no counterpart: `render` escapes the path itself.
pub record Url : Type 0 where
  pub scheme : Text
  pub host : Text
  pub with_user : Bool
  pub raw_query : Text
  pub fragment : Text
  pub path : Text

pub record Platform : Type 0 where
  -- `Time.Format` and `time.Parse`, the layout first
  pub format_time : Text → Time → Text
  pub parse_time : Text → Text → Option Time
  -- `Time.UTC`
  pub utc : Time → Time
  -- `strings.EqualFold`
  pub equal_fold : Text → Text → Bool
  -- `fmt.Sprint` of a `float64`, given by its bits
  pub sprint_float : ℕ → Text
  -- `strconv.ParseFloat`, its bits, and `time.ParseDuration`, in nanoseconds
  pub parse_float : Text → Option ℕ
  pub parse_duration : Text → Option ℤ
  -- `json.Unmarshal` into the fields `schedule` and `postgres_version`, and into `schedule` alone
  pub decode_restart : Text → Option (Text × Text)
  pub decode_schedule : Text → Option Text
  -- `strings.ToLower`
  pub to_lower : Text → Text
  -- `url.Parse` and `URL.String`
  pub parse_url : Text → Option Url
  pub render_url : Url → Text
  -- `json.Marshal` of a `map[string]string`, its fields in any order
  pub marshal : List (Text × Text) → Result Cause Text

abbrev pub rfc3339_nano : Text
rfc3339_nano = text "2006-01-02T15:04:05.999999999Z07:00"

unfoldable pub format_patroni_timestamp : Platform → Time → Text
format_patroni_timestamp os value =
    os.format_time (text "2006-01-02T15:04:05.999999999-07:00") value

-- `strings.TrimSuffix(s, suffix)`
unfoldable pub trim_suffix : Text → Text → Text
unfolding text_eq
trim_suffix suffix [] = []
trim_suffix suffix (c ∷ s) =
    let rest = trim_suffix suffix s in if text_eq (c ∷ s) suffix then [] else c ∷ rest

abbrev pub web_scheme : Text → Bool
web_scheme scheme = text_eq scheme (text "http") || text_eq scheme (text "https")

usable_url : Platform → Url → Option Text
unfolding trim_suffix trim_right_slash
usable_url os u =
    if is_empty u.host || (u.with_user || not (web_scheme u.scheme))
    then none
    else if not (is_empty u.raw_query) || not (is_empty u.fragment)
    then none
    else some (
        trim_right_slash (
          os.render_url (record {
            scheme = u.scheme;
            host = u.host;
            with_user = u.with_user;
            raw_query = u.raw_query;
            fragment = u.fragment;
            path = trim_suffix (text "/patroni") (trim_right_slash u.path);
          })))

-- `none` is an error.
unfoldable pub patroni_base_url : Platform → Text → Option Text
unfolding usable_url
patroni_base_url os api_url = elim (os.parse_url (trim_space api_url)) [
  | none ↦ none
  | some u ↦ usable_url os u
]
