-- ===== src/Base/Url.antt =====
-- What the code uses of the crate `url`, as a parameter: `Url::parse`, the parts of a URL, and what
-- replaces them.
use llmtrace.Base.{ℕ, Option}
use llmtrace.Base.Text.{Str}

pub record UrlLibrary (Url : Type 0) : Type 0 where
  pub parse : Str → Option Url
  pub scheme : Url → Str
  pub host_str : Url → Option Str
  pub port_or_known_default : Url → Option ℕ
  pub path : Url → Str
  pub username : Url → Str
  pub password : Url → Option Str
  pub query : Url → Option Str
  pub fragment : Url → Option Str
  pub set_username : Str → Url → Url
  pub set_password : Option Str → Url → Url
  pub set_query : Option Str → Url → Url
  pub set_fragment : Option Str → Url → Url
  pub to_string : Url → Str
