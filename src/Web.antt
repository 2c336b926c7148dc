-- ===== src/Web.antt =====
-- What the source takes from the platform's URL parser, and the reading of host names that is its
-- own (`hostOf`, `isHttps` of apps/api/src/sites/preflight.ts).
use site_foundry.Prelude.{
  ℕ, ◌+◌, Bool, false, ◌&&◌, Option, none, some, map, leb, if◌then◌else◌, drop,
}
use site_foundry.Text.{Text, txt, text_eq, starts_with}

-- A parsed `URL`; the parser itself is the platform's and comes as a parameter.
pub record Url : Type 0 where
  pub protocol : Text
  pub hostname : Text

-- `new URL(s)`, where `none` is the exception for a text that is no URL.
abbrev pub UrlParser : Type 0
UrlParser = Text → Option Url

-- `toLowerCase` on the ASCII letters; other units are left.
abbrev pub lower_unit : ℕ → ℕ
lower_unit c = if leb b'A' c && leb c b'Z' then c + 32 else c

unfoldable pub to_lower_case : Text → Text
to_lower_case s = map lower_unit s

-- `s.replace(/^www\./, '')`
unfoldable pub strip_www : Text → Text
unfolding txt starts_with
strip_www s = if starts_with s (txt "www.") then drop 4 s else s

unfoldable pub normal_host : Text → Text
unfolding to_lower_case strip_www
normal_host s = to_lower_case (strip_www s)

module _ (parse : UrlParser) where
  unfoldable pub host_of : Text → Option Text
  host_of url = elim (parse url) [ none ↦ none | some u ↦ some (normal_host u.hostname) ]

  unfoldable pub is_https : Text → Bool
  is_https url = elim (parse url) [ none ↦ false | some u ↦ text_eq u.protocol (txt "https:") ]
