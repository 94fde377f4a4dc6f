-- ===== src/Services/Router/Laws.antt =====
-- src/llm_gateway/services/router.py: the order of `select_providers`.
use myown_llm_gateway.Base.Dict.{Dict}
