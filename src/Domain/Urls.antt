-- ===== src/Domain/Urls.antt =====
-- `UrlFrom` of internal/deployment/domain/url.go; `url.Parse` is the argument `parse`.
use seelf.Prelude.{
  String, true, Option, none, some, if◌then◌else◌, ◌==◌, string_eq, Result, ok, err, invalid_url,
}
use seelf.Domain.Values.{UrlValue, Userinfo, Url, zero_url}

unfoldable pub url_from : (String → Option (UrlValue × Option Userinfo)) → String → Result Url
url_from parse raw = elim (parse raw) [
  | none ↦ err invalid_url
  | some (value, user) ↦ if value.scheme == "" then err invalid_url else (elim user [
    | none ↦ ok (record zero_url { value = value })
    | some info ↦ ok (record { value = value; user = record { has_value = true; value = info } })
  ])
]
