-- ===== src/Http/Url.antt =====
-- What http.rs uses of `reqwest::Url`, a library outside the repository.
use langhuan.Prelude.{Option, Text}

pub record UrlParser : Type 1 where
  pub Url : Type 0
  pub parse : Text → Option Url
  pub host_str : Url → Option Text
  pub join : Url → Text → Option Url
  pub to_text : Url → Text
