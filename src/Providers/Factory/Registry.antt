-- ===== src/Providers/Factory/Registry.antt =====
-- `ProviderRegistry` of providers/factory.py: a dict by name, in the order of first insertion.
use myown_llm_gateway.Base.{String, Option, List, [], ◌∷◌}
use myown_llm_gateway.Base.Dict.{Dict, insert, lookup, values}
use myown_llm_gateway.Models.Provider.{ProviderConfig}

module _ {P : Type 0} (config_of : P → ProviderConfig) where
  abbrev name_of : P → String
  name_of p = (config_of p).name

  -- `{p.config.name: p for p in providers}` from a dict that is there
  unfoldable add_all : Dict P → List P → Dict P
  add_all d [] = d
  add_all d (p ∷ ps) = add_all (insert (name_of p) p d) ps

  unfoldable pub registry : List P → Dict P
  unfolding add_all
  registry = add_all []

-- `registry.get(name)` and `registry.all()`
abbrev pub get : {P : Type 0} → String → Dict P → Option P
get = lookup

abbrev pub all_providers : {P : Type 0} → Dict P → List P
all_providers = values
