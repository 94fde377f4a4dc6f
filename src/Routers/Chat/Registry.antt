-- ===== src/Routers/Chat/Registry.antt =====
-- `_registry` of routers/chat.py, the providers of the process: absent, or built once.
use myown_llm_gateway.Base.{Bool, true, false, Option, none, some}

module _ {R : Type 0} where
  -- `get_registry`, over what `build_registry()` would give: the registry, and `_registry` after it
  unfoldable pub get_registry : R → Option R → R × Option R
  get_registry built none = (built, some built)
  get_registry built (some registry) = (registry, some registry)

  -- `close_registry`: is the client of a registry closed, and `_registry` after it
  unfoldable pub close_registry : Option R → Bool × Option R
  close_registry none = (false, none)
  close_registry (some registry) = (true, none)
