-- ===== src/Core/Config.antt =====
-- src/llm_gateway/core/config.py: the validators of the settings. A number is in thousandths.
use myown_llm_gateway.Base.{zero, suc, String, Option, none, some, [], ◌∷◌}
use myown_llm_gateway.Base.Int.{ℤ, pos, negsuc}
use myown_llm_gateway.Base.Text.{Text, codes, strip}
use myown_llm_gateway.Core.Exceptions.{Result, ok, raise, value_error}

-- A value of the environment, before pydantic reads it: absent, or a text.
abbrev unless_blank : Text → String → Option String
unless_blank [] value = none
unless_blank (c ∷ s) value = some value

-- `_blank_spend_limit_means_unset`
unfoldable pub blank_spend_limit_means_unset : Option String → Option String
unfolding strip
blank_spend_limit_means_unset none = none
blank_spend_limit_means_unset (some value) = unless_blank (strip (codes value)) value

-- `_positive_redis_timeout`
unfoldable pub positive_redis_timeout : ℤ → Result ℤ
positive_redis_timeout (pos zero) = raise value_error
positive_redis_timeout (pos (suc n)) = ok (pos (suc n))
positive_redis_timeout (negsuc n) = raise value_error
