-- ===== src/Tests/Loading.antt =====
-- An environment in memory, and the configuration that it gives.
use qtip_challenge.Base.{
  String, false, List, [], ◌∷◌, ◌≡◌, ◌≢◌, ◌↔◌, inr, none, refl, is_empty, str_eq, if◌then◌else◌,
}
use qtip_challenge.Base.Int.{pos}
use qtip_challenge.Config.Types.{Config}
use qtip_challenge.Config.Validate.{validate}
use qtip_challenge.Config.Load.{Environment, parse_api_keys, load}
use qtip_challenge.Config.Load.Defaults.{HasUnit, IsBare, load_defaults_valid}
use qtip_challenge.Tests.Sample.{thousandths}

abbrev two_keys : List String
two_keys = "k1" ∷ "k2" ∷ []

abbrev bare : Environment thousandths
bare = record {
  getenv = λ key.
      if str_eq key "REDIS_URL"
      then "redis://localhost:6379"
      else if str_eq key "API_KEYS"
      then " key-1, ,key-2"
      else "";
  hostname = inr "pod";
  pid = pos 1;
  parse_float = λ s. none;
  parse_duration_text = λ s. none;
}

thousandths-HasUnit : HasUnit thousandths
thousandths-HasUnit = record {
  zero_low = refl;
  zero_high = refl;
  fifth_low = refl;
  fifth_high = refl;
}

bare-IsBare : IsBare thousandths bare
bare-IsBare key url keys = rw (url, keys)

load_defaults_valid_example :
    (cfg : Config thousandths) × (load thousandths bare ≡ inr cfg)
    × ((validate thousandths (λ x. "") (λ s. s) cfg ≡ []) ↔ (
        (bare.getenv "REDIS_URL" ≢ "")
        × (is_empty (parse_api_keys (bare.getenv "API_KEYS")) ≡ false)))
load_defaults_valid_example =
    load_defaults_valid thousandths bare thousandths-HasUnit bare-IsBare "pod" refl (λ x. "")
      (λ s. s)
